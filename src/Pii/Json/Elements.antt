-- ===== src/Pii/Json/Elements.antt =====
-- internal/pii/jsonpath.go: the steps of a walk into an array and into a map.
use smart_proxy.Base.{
  ℕ, zero, suc, ◌≡◌, refl, ap, subst, ◌∙◌, inl, inr, Bool, false, Option, none, some, List, [], ◌∷◌,
  arith, if◌then◌else◌, ◌==◌, nat_eq, text_eq, text_beq_iff, Option-cases, All,
}
use smart_proxy.Base.Text.{Text}
use mathlib.Core.Option.{some-injective}
use smart_proxy.Pii.Json.{
  Json, Elems, Members, no_elem, elem, no_member, member, get_member, set_member, nth_elem,
  set_elem, Selection, all_elems, one_elem, no_selection, walk_selected, walk_elems,
}

abbrev pub as_list : Option Json → List Json
as_list none = []
as_list (some v) = v ∷ []

abbrev pub elems_list : Elems → List Json
elems_list no_elem = []
elems_list (elem v vs) = v ∷ elems_list vs

unfoldable pub selected : Elems → Selection → List Json
unfolding nth_elem
selected vs all_elems = elems_list vs
selected vs (one_elem n) = as_list (nth_elem n vs)
selected vs no_selection = []

set_elem-same : (n : ℕ) (v : Json) (vs : Elems) → nth_elem n vs ≡ some v → set_elem n v vs ≡ vs
unfolding nth_elem set_elem
set_elem-same n v no_elem h = refl
set_elem-same zero v (elem w vs) h = ground arith
set_elem-same (suc n) v (elem w vs) h = ap (λ ws. elem w ws) (set_elem-same n v vs h)

pub set_member-same :
    (k : Text) (v : Json) (ms : Members) → get_member k ms ≡ some v → set_member k v ms ≡ ms
unfolding get_member set_member
set_member-same k v no_member h = refl
set_member-same k v (member j w ms) h = ground (arith, set_member-same k v ms)

pub get_member-set_member :
    (k j : Text) (old v : Json) (ms : Members)
    → get_member k ms ≡ some old
    → get_member j (set_member k v ms) ≡ (if k == j then some v else get_member j ms)
unfolding get_member set_member
get_member-set_member k j old v no_member h = cc
get_member-set_member k j old v (member i w ms) h = ground (
  arith,
  get_member-set_member k j old v ms,
  text_beq_iff i k,
  text_beq_iff i j,
  text_beq_iff k j,
)

-- A step that finds nothing changes nothing, if the steps below it do so.
module _ (f : Json → Json × Bool) (quiet : (v : Json) → (f v).1 ≡ false → (f v).0 ≡ v) where
  walk_elems-quiet : (vs : Elems) → (walk_elems f vs).1 ≡ false → (walk_elems f vs).0 ≡ vs
  unfolding walk_elems
  walk_elems-quiet no_elem h = refl
  walk_elems-quiet (elem v vs) h =
      ap (λ w. elem w (walk_elems f vs).0) (quiet v (ground arith))
      ∙ ap (λ ws. elem v ws) (walk_elems-quiet vs (ground arith))

  pub walk_selected-quiet :
      (vs : Elems) (s : Selection)
      → (walk_selected vs s f).1 ≡ false
      → (walk_selected vs s f).0 ≡ vs
  unfolding walk_selected
  walk_selected-quiet vs all_elems h = walk_elems-quiet vs h
  walk_selected-quiet vs (one_elem n) h = elim (Option-cases (nth_elem n vs)) [
    | inl e ↦ rw (e, walk_selected) refl
    | inr (v, e) ↦
        rw (e, walk_selected)
          (ap (λ w. set_elem n w vs) (quiet v (rw (e, walk_selected) at h))
            ∙ set_elem-same n v vs e)
  ]
  walk_selected-quiet vs no_selection h = refl

-- What is selected after the step has been stepped into.
module _ (f : Json → Json × Bool) (Q : Json → Type 0) where
  module _ (made : (v : Json) → Q (f v).0) where
    walk_elems-made : (vs : Elems) → All Q (elems_list (walk_elems f vs).0)
    unfolding walk_elems
    walk_elems-made no_elem = tt
    walk_elems-made (elem v vs) = (made v, walk_elems-made vs)

    set_elem-made :
        (n : ℕ) (v : Json) (vs : Elems) → All Q (as_list (nth_elem n (set_elem n (f v).0 vs)))
    unfolding nth_elem set_elem
    set_elem-made n v no_elem = tt
    set_elem-made zero v (elem w vs) = (made v, tt)
    set_elem-made (suc n) v (elem w vs) = set_elem-made n v vs

    pub walk_selected-made :
        (vs : Elems) (s : Selection) → All Q (selected (walk_selected vs s f).0 s)
    unfolding walk_selected selected
    walk_selected-made vs all_elems = walk_elems-made vs
    walk_selected-made vs (one_elem n) = elim (Option-cases (nth_elem n vs)) [
      | inl e ↦ rw (e, walk_selected, e) tt
      | inr (v, e) ↦ rw (e, walk_selected) (set_elem-made n v vs)
    ]
    walk_selected-made vs no_selection = tt

  -- What held of everything selected still does, if the steps below keep it.
  module _ (kept : (v : Json) → Q v → Q (f v).0) where
    walk_elems-kept : (vs : Elems) → All Q (elems_list vs) → All Q (elems_list (walk_elems f vs).0)
    unfolding walk_elems
    walk_elems-kept no_elem h = tt
    walk_elems-kept (elem v vs) (q, h) = (kept v q, walk_elems-kept vs h)

    nth_elem-kept :
        (n : ℕ) (vs : Elems)
        → All Q (as_list (nth_elem n vs))
        → All Q (as_list (nth_elem n (walk_elems f vs).0))
    unfolding walk_elems nth_elem
    nth_elem-kept n no_elem h = tt
    nth_elem-kept zero (elem v vs) (q, h) = (kept v q, tt)
    nth_elem-kept (suc n) (elem v vs) h = nth_elem-kept n vs h

    set_elem-kept :
        (m : ℕ) (v : Json) (vs : Elems)
        → nth_elem m vs ≡ some v
        → All Q (elems_list vs)
        → All Q (elems_list (set_elem m (f v).0 vs))
    unfolding nth_elem set_elem
    set_elem-kept m v no_elem e h = tt
    set_elem-kept zero v (elem w vs) e (q, h) = (kept v (subst Q (some-injective w v e) q), h)
    set_elem-kept (suc m) v (elem w vs) e (q, h) = (q, set_elem-kept m v vs e h)

    nth_set-kept :
        (m n : ℕ) (v : Json) (vs : Elems)
        → nth_elem m vs ≡ some v
        → All Q (as_list (nth_elem n vs))
        → All Q (as_list (nth_elem n (set_elem m (f v).0 vs)))
    unfolding nth_elem set_elem
    nth_set-kept m n v no_elem e h = tt
    nth_set-kept zero zero v (elem w vs) e (q, h) = (kept v (subst Q (some-injective w v e) q), tt)
    nth_set-kept zero (suc n) v (elem w vs) e h = h
    nth_set-kept (suc m) zero v (elem w vs) e h = h
    nth_set-kept (suc m) (suc n) v (elem w vs) e h = nth_set-kept m n v vs e h

    pub walk_selected-kept :
        (vs : Elems) (s t : Selection)
        → All Q (selected vs t)
        → All Q (selected (walk_selected vs s f).0 t)
    unfolding walk_selected selected
    walk_selected-kept vs all_elems all_elems h = walk_elems-kept vs h
    walk_selected-kept vs all_elems (one_elem n) h = nth_elem-kept n vs h
    walk_selected-kept vs s no_selection h = tt
    walk_selected-kept vs (one_elem m) all_elems h = elim (Option-cases (nth_elem m vs)) [
      | inl e ↦ rw (e, walk_selected) h
      | inr (v, e) ↦ rw (e, walk_selected) (set_elem-kept m v vs e h)
    ]
    walk_selected-kept vs (one_elem m) (one_elem n) h = elim (Option-cases (nth_elem m vs)) [
      | inl e ↦ rw (e, walk_selected) h
      | inr (v, e) ↦ rw (e, walk_selected) (nth_set-kept m n v vs e h)
    ]
    walk_selected-kept vs no_selection t h = h
