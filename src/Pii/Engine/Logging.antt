-- ===== src/Pii/Engine/Logging.antt =====
-- internal/pii/engine.go: bodies redacted by the default rules.
use smart_proxy.Base.{
  ◌≡◌, refl, inl, inr, Bool, true, false, none, some, List, [], ◌∷◌, arith, ◌==◌, nat_eq, text_eq,
  text_beq, nat_beq_iff, Bool-cases, Option-cases, length, All, every, All-append,
}
use smart_proxy.Base.Text.{Text}
use smart_proxy.Base.Dict.{Dict, lookup}
use smart_proxy.Pii.Rules.{FieldRedaction}
use smart_proxy.Pii.Rules.Response.{default_pii_rules}
use smart_proxy.Pii.Rules.Conditional.{conditional_pii_rules}
use smart_proxy.Pii.Json.{Json, parse_path}
use smart_proxy.Pii.Json.Walk.{AllAt}
use smart_proxy.Pii.Registry.{
  Registry, new_registry, new_registry_with_extras, set_fail_closed, rules_for, rules_at, has_rules,
}
use smart_proxy.Pii.Engine.{Codec, apply_rules, redact_body, redact_for_logging}
use smart_proxy.Pii.Engine.Soundness.{IsMarker, erases, apply_rules_redact, apply_rules-quiet}

abbrev pub Erasing : List FieldRedaction → Type 0
Erasing rules = All (λ (rule : FieldRedaction). erases rule.mode ≡ true) rules

abbrev all_erase : Text × List FieldRedaction → Bool
all_erase kv = every (λ (rule : FieldRedaction). erases rule.mode) kv.1

every-Erasing :
    (rules : List FieldRedaction)
    → every (λ (rule : FieldRedaction). erases rule.mode) rules ≡ true
    → Erasing rules
unfolding every
every-Erasing [] h = tt
every-Erasing (rule ∷ rules) h = (ground arith, every-Erasing rules (ground arith))

rules_at-Erasing :
    (d : Dict Text (List FieldRedaction)) (pattern : Text)
    → every all_erase d ≡ true
    → Erasing (rules_at d pattern)
unfolding every rules_at lookup
rules_at-Erasing [] pattern h = tt
rules_at-Erasing ((k, rules) ∷ d) pattern h = elim (Bool-cases (text_beq k pattern)) [
  | inl same ↦ rw (same, rules_at) (every-Erasing rules (ground arith))
  | inr other ↦ rw (other, rules_at) (rules_at-Erasing d pattern (ground arith))
]

rules_for-Erasing :
    (reg : Registry) (pattern : Text)
    → every all_erase reg.rules ≡ true
    → every all_erase reg.conditional_rules ≡ true
    → Erasing (rules_for reg pattern)
unfolding rules_for
rules_for-Erasing reg pattern h k =
    let always = rules_at-Erasing reg.rules pattern h in
    elim (Bool-cases (has_rules reg.conditional_rules pattern)) [
      | inl more ↦
          rw (more, rules_for)
            (All-append _ (rules_at reg.rules pattern) (rules_at reg.conditional_rules pattern)
              always (rules_at-Erasing reg.conditional_rules pattern k))
      | inr no_more ↦ rw (no_more, rules_for) always
    ]

default_rules_erase : every all_erase default_pii_rules ≡ true
unfolding every
default_rules_erase = refl

conditional_rules_erase : every all_erase conditional_pii_rules ≡ true
unfolding every
conditional_rules_erase = refl

-- the registry that the program builds from its configuration
abbrev pub configured : List Text → Bool → Registry
configured extras fail_closed = set_fail_closed (new_registry_with_extras extras) fail_closed

configured-Erasing :
    (extras : List Text) (fail_closed : Bool) (pattern : Text)
    → Erasing (rules_for (configured extras fail_closed) pattern)
unfolding set_fail_closed new_registry_with_extras new_registry
configured-Erasing extras fail_closed pattern =
    rules_for-Erasing (configured extras fail_closed) pattern default_rules_erase
      conditional_rules_erase

-- What the code returns of a body, with the flag that says whether it was redacted.
module _ (codec : Codec) where
  pub data Logged (rules : List FieldRedaction) (body : Text) : Text × Bool → Type 0 where
    redacted :
        (data' doc : Json) (out : Text)
        → codec.unmarshal body ≡ some data'
        → codec.marshal doc ≡ some out
        → All (λ (rule : FieldRedaction). AllAt IsMarker doc (parse_path rule.json_path)) rules
        → Logged rules body (out, true)
    undecoded : codec.unmarshal body ≡ none → Logged rules body (body, false)
    unmatched :
        (data' : Json)
        → codec.unmarshal body ≡ some data'
        → apply_rules codec rules data' ≡ (data', false)
        → Logged rules body (body, false)
    unencoded : (doc : Json) → codec.marshal doc ≡ none → Logged rules body (body, false)
    ruleless : length rules ≡ 0 → Logged rules body (body, false)

  redact_body-Logged :
      (rules : List FieldRedaction) (body : Text)
      → Erasing rules
      → Logged rules body (redact_body codec rules body)
  unfolding redact_body
  redact_body-Logged rules body h = elim (Option-cases (codec.unmarshal body)) [
    | inl e ↦ rw (e, redact_body) (undecoded e)
    | inr (data', e) ↦
        let doc = (apply_rules codec rules data').0 in
        elim (Bool-cases (apply_rules codec rules data').1) [
          | inl matched ↦ elim (Option-cases (codec.marshal doc)) [
            | inl m ↦ rw (e, redact_body, matched, m) (unencoded doc m)
            | inr (out, m) ↦
                rw (e, redact_body, matched, m)
                  (redacted data' doc out e m (apply_rules_redact codec rules data' h))
          ]
          | inr missed ↦
              let nothing : apply_rules codec rules data' ≡ (data', false) =
                pair_eq (apply_rules codec rules data') data'
                  (apply_rules-quiet codec rules data' missed) missed in
              rw (e, redact_body, missed) (unmatched data' e nothing)
        ]
  ]
    where
      pair_eq : (p : Json × Bool) (v : Json) → p.0 ≡ v → p.1 ≡ false → p ≡ (v, false)
      pair_eq (w, b) v e f = rw (e, f) refl

  -- For every configuration: the log gets a document in which every value that a rule of the
  -- endpoint leads to is the marker [REDACTED], or the body as it came, and the latter only where
  -- the endpoint has no rules, the body is no JSON, no rule finds anything in it, or the encoder
  -- fails.
  pub redact_for_logging-Logged :
      (extras : List Text) (fail_closed : Bool) (pattern body : Text)
      → Logged
          (rules_for (configured extras fail_closed) pattern)
          body
          (redact_for_logging codec (configured extras fail_closed) pattern body)
  unfolding redact_for_logging
  redact_for_logging-Logged extras fail_closed pattern body =
      let rules = rules_for (configured extras fail_closed) pattern in
      elim (Bool-cases (length rules == 0)) [
        | inl empty ↦
            rw (empty, redact_for_logging) (ruleless ((nat_beq_iff (length rules) 0).0 empty))
        | inr some_rules ↦
            rw (some_rules, redact_for_logging)
              (redact_body-Logged rules body (configured-Erasing extras fail_closed pattern))
      ]
