-- ===== src/Pii/Json/Walk.antt =====
-- internal/pii/jsonpath.go: what a walk leaves as it was, and what is found where it went.
use smart_proxy.Base.{
  ◌≡◌, refl, ap, subst, ◌∙◌, inl, inr, Bool, false, some, List, [], ◌∷◌, if◌then◌else◌, nat_eq,
  text_eq, text_beq, text_beq_iff, Bool-cases, Option-cases, All, text_beq_refl,
}
use smart_proxy.Base.Text.{Text}
use smart_proxy.Pii.Json.{
  Json, null, boolean, number, string, array, object, get_member, set_member, selection, is_bracket,
  walk_array_segment, walk_child,
}
use smart_proxy.Pii.Json.Elements.{
  as_list, selected, set_member-same, get_member-set_member, walk_selected-quiet,
  walk_selected-made, walk_selected-kept,
}

-- The values that one segment leads to.
unfoldable pub elements : Json → Text → List Json
unfolding selected
elements (array vs) seg = selected vs (selection seg)
elements null seg = []
elements (boolean b) seg = []
elements (number t) seg = []
elements (string t) seg = []
elements (object ms) seg = []

unfoldable pub fields : Json → Text → List Json
fields (object ms) seg = as_list (get_member seg ms)
fields null seg = []
fields (boolean b) seg = []
fields (number t) seg = []
fields (string t) seg = []
fields (array vs) seg = []

abbrev pub children : Json → Text → List Json
children v seg = if is_bracket seg then elements v seg else fields v seg

-- A predicate of every value that a path leads to. A path that is empty or ends in brackets leads to
-- nothing that the callback could edit.
abbrev pub AllAt : (Json → Type 0) → Json → List Text → Type 0
AllAt P v [] = Unit
AllAt P v (seg ∷ []) = is_bracket seg ≡ false → All P (fields v seg)
AllAt P v (seg ∷ next ∷ rest) = All (λ c. AllAt P c (next ∷ rest)) (children v seg)

module _ (f : Json → Json × Bool) where
  pub walk_array_segment-quiet :
      ((v : Json) → (f v).1 ≡ false → (f v).0 ≡ v)
      → (v : Json) (seg : Text) → (walk_array_segment v seg f).1 ≡ false
      → (walk_array_segment v seg f).0 ≡ v
  unfolding walk_array_segment
  walk_array_segment-quiet quiet (array vs) seg h =
      ap (λ ws. array ws) (walk_selected-quiet f quiet vs (selection seg) h)
  walk_array_segment-quiet quiet null seg h = refl
  walk_array_segment-quiet quiet (boolean b) seg h = refl
  walk_array_segment-quiet quiet (number t) seg h = refl
  walk_array_segment-quiet quiet (string t) seg h = refl
  walk_array_segment-quiet quiet (object ms) seg h = refl

  pub walk_child-quiet :
      ((v : Json) → (f v).1 ≡ false → (f v).0 ≡ v)
      → (v : Json) (seg : Text) → (walk_child v seg f).1 ≡ false
      → (walk_child v seg f).0 ≡ v
  unfolding walk_child
  walk_child-quiet quiet (object ms) seg h = elim (Option-cases (get_member seg ms)) [
    | inl e ↦ rw (e, walk_child) refl
    | inr (c, e) ↦
        rw (e, walk_child)
          (ap (λ w. object (set_member seg w ms)) (quiet c (rw (e, walk_child) at h))
            ∙ ap (λ ns. object ns) (set_member-same seg c ms e))
  ]
  walk_child-quiet quiet null seg h = refl
  walk_child-quiet quiet (boolean b) seg h = refl
  walk_child-quiet quiet (number t) seg h = refl
  walk_child-quiet quiet (string t) seg h = refl
  walk_child-quiet quiet (array vs) seg h = refl

  module _ (Q : Json → Type 0) where
    pub elements-made :
        ((v : Json) → Q (f v).0)
        → (v : Json) (seg : Text) → All Q (elements (walk_array_segment v seg f).0 seg)
    unfolding walk_array_segment elements
    elements-made made (array vs) seg = walk_selected-made f Q made vs (selection seg)
    elements-made made null seg = tt
    elements-made made (boolean b) seg = tt
    elements-made made (number t) seg = tt
    elements-made made (string t) seg = tt
    elements-made made (object ms) seg = tt

    pub elements-kept :
        ((v : Json) → Q v → Q (f v).0)
        → (v : Json) (seg other : Text) → All Q (elements v other)
        → All Q (elements (walk_array_segment v seg f).0 other)
    unfolding walk_array_segment elements
    elements-kept kept (array vs) seg other h =
        walk_selected-kept f Q kept vs (selection seg) (selection other) h
    elements-kept kept null seg other h = tt
    elements-kept kept (boolean b) seg other h = tt
    elements-kept kept (number t) seg other h = tt
    elements-kept kept (string t) seg other h = tt
    elements-kept kept (object ms) seg other h = tt

    -- a step into an array adds no fields, and a step into a map no elements
    pub fields-array :
        (v : Json) (seg other : Text)
        → All Q (fields v other)
        → All Q (fields (walk_array_segment v seg f).0 other)
    unfolding walk_array_segment fields
    fields-array (array vs) seg other h = tt
    fields-array null seg other h = tt
    fields-array (boolean b) seg other h = tt
    fields-array (number t) seg other h = tt
    fields-array (string t) seg other h = tt
    fields-array (object ms) seg other h = h

    pub elements-child :
        (v : Json) (seg other : Text)
        → All Q (elements v other)
        → All Q (elements (walk_child v seg f).0 other)
    unfolding walk_child elements
    elements-child (object ms) seg other h = elim (Option-cases (get_member seg ms)) [
      | inl e ↦ rw (e, walk_child) tt
      | inr (c, e) ↦ rw (e, walk_child) tt
    ]
    elements-child null seg other h = tt
    elements-child (boolean b) seg other h = tt
    elements-child (number t) seg other h = tt
    elements-child (string t) seg other h = tt
    elements-child (array vs) seg other h = h

    pub fields-made :
        ((v : Json) → Q (f v).0)
        → (v : Json) (seg : Text) → All Q (fields (walk_child v seg f).0 seg)
    unfolding walk_child fields
    fields-made made (object ms) seg = elim (Option-cases (get_member seg ms)) [
      | inl e ↦ rw (e, walk_child, e) tt
      | inr (c, e) ↦
          rw (e, walk_child, get_member-set_member seg seg c (f c).0 ms e, text_beq_refl seg)
            (made c, tt)
    ]
    fields-made made null seg = tt
    fields-made made (boolean b) seg = tt
    fields-made made (number t) seg = tt
    fields-made made (string t) seg = tt
    fields-made made (array vs) seg = tt

    pub fields-kept :
        ((v : Json) → Q v → Q (f v).0)
        → (v : Json) (seg other : Text) → All Q (fields v other)
        → All Q (fields (walk_child v seg f).0 other)
    unfolding walk_child fields
    fields-kept kept (object ms) seg other h = elim (Option-cases (get_member seg ms)) [
      | inl e ↦ rw (e, walk_child) h
      | inr (c, e) ↦ elim (Bool-cases (text_beq seg other)) [
        | inl same ↦
            let found : get_member other ms ≡ some c =
              subst (λ k. get_member k ms ≡ some c) ((text_beq_iff seg other).0 same) e in
            let (q, _) = rw found at h in
            rw (e, walk_child, get_member-set_member seg other c (f c).0 ms e, same) (kept c q, tt)
        | inr differs ↦
            rw (e, walk_child, get_member-set_member seg other c (f c).0 ms e, differs) h
      ]
    ]
    fields-kept kept null seg other h = tt
    fields-kept kept (boolean b) seg other h = tt
    fields-kept kept (number t) seg other h = tt
    fields-kept kept (string t) seg other h = tt
    fields-kept kept (array vs) seg other h = tt
