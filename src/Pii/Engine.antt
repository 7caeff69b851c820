-- ===== src/Pii/Engine.antt =====
-- internal/pii/engine.go and `redactBody` of internal/logging/logger.go: what is logged of a body. The
-- JSON decoder and encoder and the hash are parameters; `none` is an error of theirs.
use smart_proxy.Base.{
  ℕ, zero, suc, ◌+◌, ◌-◌, ◌*◌, ◌/◌, ◌%◌, ◌^◌, ◌≤◌, ◌<◌, ◌≡◌, refl, sym, ap, subst, ◌∙◌, ◌≢◌, ◌↔◌,
  ◌⊎◌, inl, inr, Bool, true, false, not, ◌&&◌, ◌||◌, Option, none, some, List, [], ◌∷◌, ◌++◌, map,
  arith, ltb, leb, if◌then◌else◌, Eq, ◌==◌, nat_eq, text_eq, text_beq, nat_beq_iff, text_beq_iff,
  Bool-cases, Option-cases, length, All, keep, any,
}
use smart_proxy.Base.Text
use smart_proxy.Base.Text.{Text, text, has_prefix, has_suffix}
use smart_proxy.Base.Dict.{Dict, lookup, insert, erase, IsDistinct, lookup-insert, lookup-erase}
use smart_proxy.Endpoint.Classify.{classify_known}
use smart_proxy.Pii.Rules.{
  FieldRedaction, RedactionMode, redact_mode_redact, redact_mode_hash, redact_mode_omit,
}
use smart_proxy.Pii.Json.{
  Json, Members, null, string, get_member, set_member, delete_member, walk_and_apply,
}
use smart_proxy.Pii.Registry.{Registry, rules_for, request_body_rules_for, is_full_body_pii}
pub mod Soundness
pub mod Logging

pub record Codec : Type 0 where
  pub unmarshal : Text → Option Json
  pub marshal : Json → Option Text
  pub full_body : Text → Text
  pub sha256_hex : Json → Text

abbrev pub redacted_text : Text
redacted_text = text "[REDACTED]"

module _ (codec : Codec) where
  -- the callback, by the rule's mode
  unfoldable pub redact_member : RedactionMode → Members → Text → Members
  unfolding get_member set_member delete_member
  redact_member redact_mode_redact ms key = set_member key (string redacted_text) ms
  redact_member redact_mode_hash ms key = elim (get_member key ms) [
    | none ↦ set_member key (string (text "sha256:" ++ codec.sha256_hex null)) ms
    | some v ↦ set_member key (string (text "sha256:" ++ codec.sha256_hex v)) ms
  ]
  redact_member redact_mode_omit ms key = delete_member key ms

  -- the loop over the rules, with `anyMatched`
  unfoldable pub apply_rules : List FieldRedaction → Json → Json × Bool
  unfolding walk_and_apply redact_member
  apply_rules [] data' = (data', false)
  apply_rules (rule ∷ rules) data' =
      let (next, matched) = walk_and_apply data' rule.json_path (redact_member rule.mode) in
      let (last, others) = apply_rules rules next in (last, matched || others)

  -- what follows the look for rules in both functions
  unfoldable pub redact_body : List FieldRedaction → Text → Text × Bool
  unfolding apply_rules
  redact_body rules body = elim (codec.unmarshal body) [
    | none ↦ (body, false)
    | some data' ↦
        let (redacted, any_matched) = apply_rules rules data' in
        if not any_matched
        then (body, false)
        else elim (codec.marshal redacted) [ none ↦ (body, false) | some out ↦ (out, true) ]
  ]

  unfoldable pub redact_for_logging : Registry → Text → Text → Text × Bool
  unfolding redact_body
  redact_for_logging reg endpoint body =
      let rules = rules_for reg endpoint in
      if length rules == 0 then (body, false) else redact_body rules body

  unfoldable pub redact_request_body_for_logging : Registry → Text → Text → Text × Bool
  unfolding redact_body any
  redact_request_body_for_logging reg endpoint body =
      let rules = request_body_rules_for reg endpoint in
      if length rules == 0
      then (body, false)
      else if any (λ (rule : FieldRedaction). rule.json_path == text "$") rules
      then (codec.full_body endpoint, true)
      else redact_body rules body

  -- the parts of a log entry that `redactBody` reads and writes
  pub record LogEntry : Type 0 where
    pub path : Text
    pub pii_redacted_request : Bool
    pub pii_redacted_response : Bool
    pub request_body_endpoint : Text
    pub request_body : Option Text
    pub response_body : Option Text

  unfoldable pub redact_response : Registry → LogEntry → Option Text
  unfolding redact_for_logging
  redact_response reg entry =
      let (classified_path, known) = classify_known entry.path in
      if not entry.pii_redacted_response
      then entry.response_body
      else if is_full_body_pii reg classified_path known
      then some (codec.full_body classified_path)
      else elim entry.response_body [
        | none ↦ none
        | some body ↦ some (redact_for_logging reg classified_path body).0
      ]

  unfoldable pub redact_request : Registry → LogEntry → Option Text
  unfolding redact_request_body_for_logging
  redact_request reg entry =
      let (classified_path, known) = classify_known entry.path in
      if not entry.pii_redacted_request then entry.request_body else elim entry.request_body [
        | none ↦ none
        | some body ↦
            let req_endpoint =
              if entry.request_body_endpoint == []
              then classified_path
              else entry.request_body_endpoint in
            let (redacted, ok) = redact_request_body_for_logging reg req_endpoint body in
            if ok
            then some redacted
            else if is_full_body_pii reg classified_path known
            then some (codec.full_body req_endpoint)
            else some body
      ]

  -- both halves, for a logger that has an engine
  unfoldable pub redact_entry : Registry → LogEntry → LogEntry
  unfolding redact_response redact_request
  redact_entry reg entry = record entry {
    response_body = redact_response reg entry;
    request_body = redact_request reg entry;
  }
