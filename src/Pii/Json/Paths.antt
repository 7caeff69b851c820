-- ===== src/Pii/Json/Paths.antt =====
-- internal/pii/jsonpath.go: whole walks, and the values at the end of this path and of others.
use smart_proxy.Base.{
  ◌≡◌, refl, subst, inl, inr, Bool, false, List, [], ◌∷◌, arith, nat_eq, text_eq, text_beq,
  text_beq_iff, Bool-cases, Option-cases, All, All-map_rule,
}
use smart_proxy.Base.Text.{Text}
use smart_proxy.Pii.Json.{
  Json, Members, null, boolean, number, string, array, object, get_member, is_bracket,
  walk_array_segment, walk_child, apply_last, walk_segments,
}
use smart_proxy.Pii.Json.Elements.{as_list}
use smart_proxy.Pii.Json.Walk.{
  AllAt, elements, fields, walk_array_segment-quiet, walk_child-quiet, elements-made, elements-kept,
  fields-array, elements-child, fields-made, fields-kept,
}

apply_last-quiet :
    (edit : Members → Text → Members) (v : Json) (seg : Text)
    → (apply_last v seg edit).1 ≡ false
    → (apply_last v seg edit).0 ≡ v
unfolding apply_last
apply_last-quiet edit (object ms) seg h = ground arith
apply_last-quiet edit null seg h = refl
apply_last-quiet edit (boolean b) seg h = refl
apply_last-quiet edit (number t) seg h = refl
apply_last-quiet edit (string t) seg h = refl
apply_last-quiet edit (array vs) seg h = refl

-- A walk that reports no match has changed nothing, whatever the callback.
pub walk_segments-quiet :
    (edit : Members → Text → Members) (v : Json) (segs : List Text)
    → (walk_segments v segs edit).1 ≡ false
    → (walk_segments v segs edit).0 ≡ v
unfolding walk_segments
walk_segments-quiet edit v [] h = refl
walk_segments-quiet edit v (seg ∷ []) h = elim (Bool-cases (is_bracket seg)) [
  | inl b ↦
      rw (b, walk_segments)
        (walk_array_segment-quiet (λ w. (w, false)) (λ w e. refl) v seg
          (rw (b, walk_segments) at h))
  | inr b ↦ rw (b, walk_segments) (apply_last-quiet edit v seg (rw (b, walk_segments) at h))
]
walk_segments-quiet edit v (seg ∷ next ∷ rest) h =
    let deeper = λ (w : Json). walk_segments w (next ∷ rest) edit in
    let below : (w : Json) → (deeper w).1 ≡ false → (deeper w).0 ≡ w =
      λ w e. walk_segments-quiet edit w (next ∷ rest) e in
    elim (Bool-cases (is_bracket seg)) [
      | inl b ↦
          rw (b, walk_segments)
            (walk_array_segment-quiet deeper below v seg (rw (b, walk_segments) at h))
      | inr b ↦
          rw (b, walk_segments) (walk_child-quiet deeper below v seg (rw (b, walk_segments) at h))
    ]

-- What is assumed of the callback: after it, the key has a value with the property or none, and the
-- other keys are as before; a value with the property is a leaf.
module _ (P : Json → Type 0) (edit : Members → Text → Members)
    (edited : (ms : Members) (k : Text) → All P (as_list (get_member k (edit ms k))))
    (untouched : (ms : Members) (k j : Text)
      → text_beq k j ≡ false
      → get_member j (edit ms k) ≡ get_member j ms)
    (leaf : (v : Json) → P v → (segs : List Text) → AllAt P v segs) where
  fields-last : (v : Json) (seg : Text) → All P (fields (apply_last v seg edit).0 seg)
  unfolding apply_last fields
  fields-last (object ms) seg = elim (Option-cases (get_member seg ms)) [
    | inl e ↦ rw (e, apply_last, e) tt
    | inr (c, e) ↦ rw (e, apply_last) (edited ms seg)
  ]
  fields-last null seg = tt
  fields-last (boolean b) seg = tt
  fields-last (number t) seg = tt
  fields-last (string t) seg = tt
  fields-last (array vs) seg = tt

  fields-last_kept :
      (Q : Json → Type 0)
      → ((v : Json) → P v → Q v)
      → (v : Json) (seg other : Text) → All Q (fields v other)
      → All Q (fields (apply_last v seg edit).0 other)
  unfolding apply_last fields
  fields-last_kept Q weaken (object ms) seg other h = elim (Option-cases (get_member seg ms)) [
    | inl e ↦ rw (e, apply_last) h
    | inr (c, e) ↦ elim (Bool-cases (text_beq seg other)) [
      | inl same ↦
          rw (e, apply_last)
            (All-map_rule (as_list (get_member other (edit ms seg))) weaken (
              subst (λ k. All P (as_list (get_member k (edit ms seg))))
                ((text_beq_iff seg other).0 same) (edited ms seg)))
      | inr differs ↦ rw (e, apply_last, untouched ms seg other differs) h
    ]
  ]
  fields-last_kept Q weaken null seg other h = tt
  fields-last_kept Q weaken (boolean b) seg other h = tt
  fields-last_kept Q weaken (number t) seg other h = tt
  fields-last_kept Q weaken (string t) seg other h = tt
  fields-last_kept Q weaken (array vs) seg other h = tt

  elements-last :
      (Q : Json → Type 0) (v : Json) (seg other : Text)
      → All Q (elements v other)
      → All Q (elements (apply_last v seg edit).0 other)
  unfolding apply_last elements
  elements-last Q (object ms) seg other h = elim (Option-cases (get_member seg ms)) [
    | inl e ↦ rw (e, apply_last) tt
    | inr (c, e) ↦ rw (e, apply_last) tt
  ]
  elements-last Q null seg other h = tt
  elements-last Q (boolean b) seg other h = tt
  elements-last Q (number t) seg other h = tt
  elements-last Q (string t) seg other h = tt
  elements-last Q (array vs) seg other h = h

  last_kept :
      (v : Json) (seg : Text) (path : List Text)
      → AllAt P v path
      → AllAt P (apply_last v seg edit).0 path
  last_kept v seg [] h = tt
  last_kept v seg (o ∷ []) h = λ b. fields-last_kept P (λ w p. p) v seg o (h b)
  last_kept v seg (o ∷ next ∷ rest) h =
      let Q : Json → Type 0 = λ c. AllAt P c (next ∷ rest) in
      elim (Bool-cases (is_bracket o)) [
        | inl b ↦ rw b (elements-last Q v seg o (rw b at h))
        | inr b ↦ rw b (fields-last_kept Q (λ w p. leaf w p (next ∷ rest)) v seg o (rw b at h))
      ]

  module _ (f : Json → Json × Bool) where
    array_kept :
        ((path : List Text) (v : Json) → AllAt P v path → AllAt P (f v).0 path)
        → (v : Json) (seg : Text) (path : List Text) → AllAt P v path
        → AllAt P (walk_array_segment v seg f).0 path
    array_kept kept v seg [] h = tt
    array_kept kept v seg (o ∷ []) h = λ b. fields-array f P v seg o (h b)
    array_kept kept v seg (o ∷ next ∷ rest) h =
        let Q : Json → Type 0 = λ c. AllAt P c (next ∷ rest) in
        elim (Bool-cases (is_bracket o)) [
          | inl b ↦ rw b (elements-kept f Q (kept (next ∷ rest)) v seg o (rw b at h))
          | inr b ↦ rw b (fields-array f Q v seg o (rw b at h))
        ]

    child_kept :
        ((path : List Text) (v : Json) → AllAt P v path → AllAt P (f v).0 path)
        → ((v : Json) → P v → P (f v).0)
        → (v : Json) (seg : Text) (path : List Text) → AllAt P v path
        → AllAt P (walk_child v seg f).0 path
    child_kept kept stays v seg [] h = tt
    child_kept kept stays v seg (o ∷ []) h = λ b. fields-kept f P stays v seg o (h b)
    child_kept kept stays v seg (o ∷ next ∷ rest) h =
        let Q : Json → Type 0 = λ c. AllAt P c (next ∷ rest) in
        elim (Bool-cases (is_bracket o)) [
          | inl b ↦ rw b (elements-child f Q v seg o (rw b at h))
          | inr b ↦ rw b (fields-kept f Q (kept (next ∷ rest)) v seg o (rw b at h))
        ]

  -- After a walk, every value that its path leads to has the property.
  pub walk_segments-made :
      (v : Json) (segs : List Text) → AllAt P (walk_segments v segs edit).0 segs
  unfolding walk_segments
  walk_segments-made v [] = tt
  walk_segments-made v (seg ∷ []) = λ b. rw (b, walk_segments) (fields-last v seg)
  walk_segments-made v (seg ∷ next ∷ rest) =
      let deeper = λ (w : Json). walk_segments w (next ∷ rest) edit in
      let Q : Json → Type 0 = λ c. AllAt P c (next ∷ rest) in
      let below : (w : Json) → Q (deeper w).0 = λ w. walk_segments-made w (next ∷ rest) in
      elim (Bool-cases (is_bracket seg)) [
        | inl b ↦ rw (b, walk_segments) (elements-made deeper Q below v seg)
        | inr b ↦ rw (b, walk_segments) (fields-made deeper Q below v seg)
      ]

  module _ (stays : (v : Json) (segs : List Text) → P v → P (walk_segments v segs edit).0) where
    -- And what another path leads to keeps it.
    pub walk_segments-kept :
        (segs path : List Text) (v : Json)
        → AllAt P v path
        → AllAt P (walk_segments v segs edit).0 path
    unfolding walk_segments
    walk_segments-kept [] path v h = h
    walk_segments-kept (seg ∷ []) path v h = elim (Bool-cases (is_bracket seg)) [
      | inl b ↦ rw (b, walk_segments) (array_kept (λ w. (w, false)) (λ q w k. k) v seg path h)
      | inr b ↦ rw (b, walk_segments) (last_kept v seg path h)
    ]
    walk_segments-kept (seg ∷ next ∷ rest) path v h =
        let deeper = λ (w : Json). walk_segments w (next ∷ rest) edit in
        let kept : (q : List Text) (w : Json) → AllAt P w q → AllAt P (deeper w).0 q =
          λ q w k. walk_segments-kept (next ∷ rest) q w k in
        elim (Bool-cases (is_bracket seg)) [
          | inl b ↦ rw (b, walk_segments) (array_kept deeper kept v seg path h)
          | inr b ↦
              rw (b, walk_segments)
                (child_kept deeper kept (λ w p. stays w (next ∷ rest) p) v seg path h)
        ]
