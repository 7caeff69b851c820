-- ===== src/Pii/Engine/Soundness.antt =====
-- internal/pii/engine.go: the values that rules name, after the rules have been applied.
use smart_proxy.Base.{
  ◌≡◌, refl, sym, ap, ◌∙◌, inl, inr, Bool, true, false, none, List, [], ◌∷◌, arith, if◌then◌else◌,
  ◌==◌, nat_eq, text_eq, text_beq, text_beq_iff, Bool-cases, Option-cases, All, text_beq_refl,
}
use smart_proxy.Base.Text.{Text}
use smart_proxy.Pii.Rules.{
  FieldRedaction, RedactionMode, redact_mode_redact, redact_mode_hash, redact_mode_omit,
}
use smart_proxy.Pii.Json.{
  Json, Members, string, no_member, member, get_member, set_member, delete_member, walk_and_apply,
  walk_segments, parse_path, is_bracket, walk_array_segment, walk_child, apply_last,
}
use smart_proxy.Pii.Json.Elements.{as_list, get_member-set_member}
use smart_proxy.Pii.Json.Walk.{AllAt, elements, fields}
use smart_proxy.Pii.Json.Paths.{walk_segments-quiet, walk_segments-made, walk_segments-kept}
use smart_proxy.Pii.Engine.{Codec, redacted_text, redact_member, apply_rules}

abbrev pub IsMarker : Json → Type 0
IsMarker v = v ≡ string redacted_text

get_member-delete_member :
    (k j : Text) (ms : Members)
    → get_member j (delete_member k ms) ≡ (if k == j then none else get_member j ms)
unfolding get_member delete_member
get_member-delete_member k j no_member = ground arith
get_member-delete_member k j (member i w ms) =
    ground
      (arith, get_member-delete_member k j ms, text_beq_iff i k, text_beq_iff i j, text_beq_iff k j)

get_member-set_absent :
    (k j : Text) (v : Json) (ms : Members)
    → get_member k ms ≡ none
    → get_member j (set_member k v ms) ≡ get_member j ms
unfolding get_member set_member
get_member-set_absent k j v no_member h = refl
get_member-set_absent k j v (member i w ms) h = ground (arith, get_member-set_absent k j v ms)

string-AllAt : (v : Json) → IsMarker v → (segs : List Text) → AllAt IsMarker v segs
unfolding elements fields
string-AllAt v e [] = tt
string-AllAt v e (seg ∷ []) = rw e (λ b. tt)
string-AllAt v e (seg ∷ next ∷ rest) = elim (Bool-cases (is_bracket seg)) [
  | inl b ↦ rw (e, b) tt
  | inr b ↦ rw (e, b) tt
]

string-walk_segments :
    (edit : Members → Text → Members) (v : Json) (segs : List Text)
    → IsMarker v
    → IsMarker (walk_segments v segs edit).0
unfolding walk_segments walk_array_segment walk_child apply_last
string-walk_segments edit v [] e = e
string-walk_segments edit v (seg ∷ []) e = elim (Bool-cases (is_bracket seg)) [
  | inl b ↦ rw (e, b, walk_segments) refl
  | inr b ↦ rw (e, b, walk_segments) refl
]
string-walk_segments edit v (seg ∷ next ∷ rest) e = elim (Bool-cases (is_bracket seg)) [
  | inl b ↦ rw (e, b, walk_segments) refl
  | inr b ↦ rw (e, b, walk_segments) refl
]

-- The rules that leave no trace of the value; a hash keeps one.
abbrev pub erases : RedactionMode → Bool
erases redact_mode_redact = true
erases redact_mode_hash = false
erases redact_mode_omit = true

module _ (codec : Codec) where
  redact_member-edited :
      (mode : RedactionMode)
      → erases mode ≡ true
      → (ms : Members) (k : Text)
      → All IsMarker (as_list (get_member k (redact_member codec mode ms k)))
  unfolding redact_member
  redact_member-edited redact_mode_redact h ms k = elim (Option-cases (get_member k ms)) [
    | inl e ↦ rw (get_member-set_absent k k (string redacted_text) ms e, e) tt
    | inr (v, e) ↦
        rw (get_member-set_member k k v (string redacted_text) ms e, text_beq_refl k) (refl, tt)
  ]
  redact_member-edited redact_mode_hash h ms k = cc
  redact_member-edited redact_mode_omit h ms k =
      rw (get_member-delete_member k k ms, text_beq_refl k) tt

  redact_member-untouched :
      (mode : RedactionMode) (ms : Members) (k j : Text)
      → erases mode ≡ true
      → text_beq k j ≡ false
      → get_member j (redact_member codec mode ms k) ≡ get_member j ms
  unfolding redact_member
  redact_member-untouched redact_mode_redact ms k j h other =
      elim (Option-cases (get_member k ms)) [
        | inl e ↦ get_member-set_absent k j (string redacted_text) ms e
        | inr (v, e) ↦ get_member-set_member k j v (string redacted_text) ms e ∙ rw other refl
      ]
  redact_member-untouched redact_mode_hash ms k j h other = cc
  redact_member-untouched redact_mode_omit ms k j h other =
      get_member-delete_member k j ms ∙ rw other refl

  walk-kept :
      (rule : FieldRedaction) (v : Json) (path : List Text)
      → erases rule.mode ≡ true
      → AllAt IsMarker v path
      → AllAt IsMarker (walk_and_apply v rule.json_path (redact_member codec rule.mode)).0 path
  unfolding walk_and_apply
  walk-kept rule v path h marked =
      let edit = redact_member codec rule.mode in
      walk_segments-kept IsMarker edit (redact_member-edited rule.mode h)
        (λ ms k j other. redact_member-untouched rule.mode ms k j h other) string-AllAt
        (λ w segs e. string-walk_segments edit w segs e) (parse_path rule.json_path) path v marked

  All-kept :
      (rules : List FieldRedaction) (v : Json) (path : List Text)
      → All (λ (rule : FieldRedaction). erases rule.mode ≡ true) rules
      → AllAt IsMarker v path
      → AllAt IsMarker (apply_rules codec rules v).0 path
  unfolding apply_rules
  All-kept [] v path h marked = marked
  All-kept (rule ∷ rules) v path (e, h) marked =
      All-kept rules (walk_and_apply v rule.json_path (redact_member codec rule.mode)).0 path h
        (walk-kept rule v path e marked)

  -- With rules that replace or omit, whatever their number and order: in the redacted document every
  -- value that the path of a rule leads to is the marker. No later rule brings a value back.
  pub apply_rules_redact :
      (rules : List FieldRedaction) (v : Json)
      → All (λ (rule : FieldRedaction). erases rule.mode ≡ true) rules
      → All
          (λ (rule : FieldRedaction).
            AllAt IsMarker (apply_rules codec rules v).0 (parse_path rule.json_path))
          rules
  unfolding apply_rules
  apply_rules_redact [] v h = tt
  apply_rules_redact (rule ∷ rules) v (e, h) =
      let edit = redact_member codec rule.mode in
      let next = (walk_and_apply v rule.json_path edit).0 in
      let made : AllAt IsMarker next (parse_path rule.json_path) =
        unfold walk_and_apply in
        walk_segments-made IsMarker edit (redact_member-edited rule.mode e)
          (λ ms k j other. redact_member-untouched rule.mode ms k j e other) string-AllAt v
          (parse_path rule.json_path) in
      (All-kept rules next (parse_path rule.json_path) h made, apply_rules_redact rules next h)

  pub apply_rules-quiet :
      (rules : List FieldRedaction) (v : Json)
      → (apply_rules codec rules v).1 ≡ false
      → (apply_rules codec rules v).0 ≡ v
  unfolding apply_rules walk_and_apply
  apply_rules-quiet [] v h = refl
  apply_rules-quiet (rule ∷ rules) v h =
      let edit = redact_member codec rule.mode in
      let same : (walk_and_apply v rule.json_path edit).0 ≡ v =
        walk_segments-quiet edit v (parse_path rule.json_path) (ground arith) in
      ap (λ w. (apply_rules codec rules w).0) same
      ∙ apply_rules-quiet rules v
          (ap (λ w. (apply_rules codec rules w).1) (sym same) ∙ ground arith)
