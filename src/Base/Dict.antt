-- ===== src/Base/Dict.antt =====
-- Go maps as association lists over any key type with a Boolean equality. The order of the list
-- is the order in which a `range` over the map happens to run.
use Prim.Native.Nat.{◌≤◌}
use mathlib.Core.Path.{◌≡◌}
use mathlib.Core.List.{List, [], ◌∷◌}
use mathlib.Core.Option.{Option, none, some}
use native.Mathlib.Omega.{arith}
use smart_proxy.Base.Tests.{if◌then◌else◌, Eq, ◌==◌}
use smart_proxy.Base.Lists.{All, length}

abbrev pub Dict {ℓ κ} : Type ℓ → Type κ → Type (ℓ ⊔ κ)
Dict K V = List (K × V)

module _ {ℓ κ} {K : Type ℓ} {V : Type κ} ⦃e : Eq K⦄ where
  -- v, ok := m[k]
  unfoldable pub lookup : K → Dict K V → Option V
  lookup k [] = none
  lookup k ((j, v) ∷ d) = if j == k then some v else lookup k d

  -- delete(m, k)
  unfoldable pub erase : K → Dict K V → Dict K V
  erase k [] = []
  erase k ((j, v) ∷ d) = if j == k then erase k d else (j, v) ∷ erase k d

  -- m[k] = v
  unfoldable pub insert : K → V → Dict K V → Dict K V
  unfolding erase
  insert k v d = (k, v) ∷ erase k d

  pub lookup-erase :
      (k j : K) (d : Dict K V) → lookup j (erase k d) ≡ (if k == j then none else lookup j d)
  unfolding lookup erase
  lookup-erase k j [] = ground arith
  lookup-erase k j ((i, v) ∷ d) =
      ground (arith, e.equal_iff k j, e.equal_iff i k, e.equal_iff i j, lookup-erase k j d)

  pub lookup-insert :
      (k j : K) (v : V) (d : Dict K V)
      → lookup j (insert k v d) ≡ (if k == j then some v else lookup j d)
  unfolding lookup insert
  lookup-insert k j v d = ground (arith, lookup-erase k j d)

  pub length-erase-le : (k : K) (d : Dict K V) → length (erase k d) ≤ length d
  unfolding erase
  length-erase-le k [] = omega arith
  length-erase-le k ((j, v) ∷ d) = ground (arith, length-erase-le k d)

  pub All-erase {ι} : (P : K × V → Type ι) (k : K) (d : Dict K V) → All P d → All P (erase k d)
  unfolding erase
  All-erase P k [] h = tt
  All-erase P k ((j, v) ∷ d) (p, h) = ground (arith, All-erase P k d h)

  -- No key stands twice.
  abbrev pub IsDistinct : Dict K V → Type κ
  IsDistinct [] = Unit
  IsDistinct ((k, v) ∷ d) = (lookup k d ≡ none) × IsDistinct d

  pub erase-IsDistinct : (k : K) (d : Dict K V) → IsDistinct d → IsDistinct (erase k d)
  unfolding erase
  erase-IsDistinct k [] h = tt
  erase-IsDistinct k ((j, v) ∷ d) (p, h) =
      ground (arith, erase-IsDistinct k d h, lookup-erase k j d)

  pub insert-IsDistinct : (k : K) (v : V) (d : Dict K V) → IsDistinct d → IsDistinct (insert k v d)
  unfolding insert
  insert-IsDistinct k v d h =
      (ground (arith, lookup-erase k k d, e.equal_iff k k), erase-IsDistinct k d h)
