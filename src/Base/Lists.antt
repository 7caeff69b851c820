-- ===== src/Base/Lists.antt =====
-- Lists measured by native numbers, and predicates on their elements.
use Prim.Native.Nat.{ℕ, zero, suc, ◌+◌, ◌≤◌}
use mathlib.Core.Path.{◌≡◌, refl, ap}
use mathlib.Core.Logic.{◌⊎◌, inl, inr}
use mathlib.Core.Bool.{Bool, true, false, ◌&&◌, ◌||◌}
use mathlib.Core.List.{Memᴰ, List, [], ◌∷◌, ◌++◌}
use native.Mathlib.Omega.{arith}
use smart_proxy.Base.Tests.{if◌then◌else◌}

module _ {ℓ} {A : Type ℓ} where
  abbrev pub length : List A → ℕ
  length [] = 0
  length (x ∷ xs) = suc (length xs)

  abbrev pub take : ℕ → List A → List A
  take zero xs = []
  take (suc n) [] = []
  take (suc n) (x ∷ xs) = x ∷ take n xs

  abbrev pub drop : ℕ → List A → List A
  drop zero xs = xs
  drop (suc n) [] = []
  drop (suc n) (x ∷ xs) = drop n xs

  -- The elements that pass a test, in order.
  unfoldable pub keep : (A → Bool) → List A → List A
  keep p [] = []
  keep p (x ∷ xs) = if p x then x ∷ keep p xs else keep p xs

  pub length-keep-le : (p : A → Bool) (xs : List A) → length (keep p xs) ≤ length xs
  unfolding keep
  length-keep-le p [] = omega arith
  length-keep-le p (x ∷ xs) = ground (arith, length-keep-le p xs)

  pub keep-append : (p : A → Bool) (xs ys : List A) → keep p (xs ++ ys) ≡ keep p xs ++ keep p ys
  unfolding keep
  keep-append p [] ys = refl
  keep-append p (x ∷ xs) ys = ground (arith, keep-append p xs ys)

  pub keep-keep : (p q : A → Bool) (xs : List A) → keep q (keep p xs) ≡ keep (λ x. p x && q x) xs
  unfolding keep
  keep-keep p q [] = refl
  keep-keep p q (x ∷ xs) = ground (arith, keep-keep p q xs)

  pub keep_all : (xs : List A) → keep (λ x. true) xs ≡ xs
  unfolding keep
  keep_all [] = refl
  keep_all (x ∷ xs) = ap (◌∷◌ x) (keep_all xs)

  pub keep_swap : (p q : A → Bool) (xs : List A) → keep q (keep p xs) ≡ keep p (keep q xs)
  unfolding keep
  keep_swap p q [] = refl
  keep_swap p q (x ∷ xs) = ground (arith, keep_swap p q xs)

  pub length-append : (xs ys : List A) → length (xs ++ ys) ≡ length xs + length ys
  length-append [] ys = omega arith
  length-append (x ∷ xs) ys = omega (arith, length-append xs ys)

  pub take-append : (xs ys : List A) → take (length xs) (xs ++ ys) ≡ xs
  take-append [] ys = refl
  take-append (x ∷ xs) ys = ap (◌∷◌ x) (take-append xs ys)

  pub drop-append : (xs ys : List A) → drop (length xs) (xs ++ ys) ≡ ys
  drop-append [] ys = refl
  drop-append (x ∷ xs) ys = drop-append xs ys

  -- What a range that ends within a list has does not depend on what follows the list.
  pub take-drop-append :
      (off n : ℕ) (xs ys : List A)
      → off + n ≤ length xs
      → take n (drop off (xs ++ ys)) ≡ take n (drop off xs)
  take-drop-append zero zero xs ys h = refl
  take-drop-append zero (suc n) [] ys h = absurd (omega (arith, h))
  take-drop-append zero (suc n) (x ∷ xs) ys h =
      ap (◌∷◌ x) (take-drop-append zero n xs ys (omega (arith, h)))
  take-drop-append (suc off) n [] ys h = absurd (omega (arith, h))
  take-drop-append (suc off) n (x ∷ xs) ys h = take-drop-append off n xs ys (omega (arith, h))

module _ {ℓ κ} {A : Type ℓ} (P : A → Type κ) where
  abbrev pub All : List A → Type κ
  All [] = Unit
  All (x ∷ xs) = P x × All xs

module _ {ℓ κ} {A : Type ℓ} (P : A → Type κ) where
  pub All-append : (xs ys : List A) → All P xs → All P ys → All P (xs ++ ys)
  All-append [] ys h k = k
  All-append (x ∷ xs) ys (p, h) k = (p, All-append xs ys h k)

  pub All-keep : (p : A → Bool) (xs : List A) → All P xs → All P (keep p xs)
  unfolding keep
  All-keep p [] h = tt
  All-keep p (x ∷ xs) (q, h) = ground (arith, All-keep p xs h)

  -- What the test itself says holds of the elements kept.
  pub All-keep_of_test :
      (p : A → Bool) (xs : List A) → ((x : A) → p x ≡ true → P x) → All P (keep p xs)
  unfolding keep
  All-keep_of_test p [] h = tt
  All-keep_of_test p (x ∷ xs) h = ground (arith, h x, All-keep_of_test p xs h)

pub All-map_rule {ℓ κ ι} :
    {A : Type ℓ} {P : A → Type κ} {Q : A → Type ι} (xs : List A)
    → ((x : A) → P x → Q x)
    → All P xs
    → All Q xs
All-map_rule [] f h = tt
All-map_rule (x ∷ xs) f (p, h) = (f x p, All-map_rule xs f h)

-- A test of every element, for the tables of the program.
unfoldable pub every {ℓ} : {A : Type ℓ} → (A → Bool) → List A → Bool
every p [] = true
every p (x ∷ xs) = p x && every p xs

pub every_mem {ℓ} :
    {A : Type ℓ} (p : A → Bool) (xs : List A) {x : A} → every p xs ≡ true → Memᴰ x xs → p x ≡ true
unfolding every
every_mem p [] h m = elim m [ ]
every_mem p (y ∷ ys) h (Memᴰ.head e) = rw e (ground arith)
every_mem p (y ∷ ys) h (Memᴰ.tail m) = every_mem p ys (ground arith) m

-- A test of some element.
unfoldable pub any {ℓ} : {A : Type ℓ} → (A → Bool) → List A → Bool
any p [] = false
any p (x ∷ xs) = p x || any p xs

-- To split on a computed list and keep the equation.
pub List-cases {ℓ} : {A : Type ℓ} (l : List A) → (l ≡ []) ⊎ ((x : A) × (xs : List A) × (l ≡ x ∷ xs))
List-cases [] = inl refl
List-cases (x ∷ xs) = inr (x, xs, refl)
