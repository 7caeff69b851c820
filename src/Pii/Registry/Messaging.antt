-- ===== src/Pii/Registry/Messaging.antt =====
-- internal/pii/registry.go: the messages of sellers to buyers, and the endpoints that the default
-- tables name.
use smart_proxy.Base.{
  ℕ, suc, ◌≡◌, refl, sym, ap, subst, ◌∙◌, ◌⊎◌, inl, inr, Bool, true, false, not, ◌&&◌, ◌||◌, none,
  some, List, [], ◌∷◌, ◌++◌, arith, ◌==◌, nat_eq, text_eq, text_beq, text_beq_iff, Bool-cases,
  Option-cases, length, every, any, take, drop,
}
use smart_proxy.Base.Text.{
  Text, text, has_prefix, has_suffix, index, has_prefix_split, clean_path, count_byte, strip_query,
  trim_right, drop_front,
}
use smart_proxy.Base.Dict.{Dict, lookup}
use smart_proxy.Base.Clean.{lacks}
use smart_proxy.Endpoint.Classify.{
  classify_known, classify_cleaned, first_pattern, matches, same_pair,
}
use mathlib.Core.Option.{some-injective}
use smart_proxy.Pii.Rules.{FieldRedaction}
use smart_proxy.Pii.Rules.Response.{default_pii_rules}
use smart_proxy.Pii.Rules.Conditional.{conditional_pii_rules}
use smart_proxy.Pii.Rules.RequestBody.{default_request_body_pii_rules}
use smart_proxy.Pii.Registry.{
  Registry, HttpRequest, new_registry, has_rules, rules_at, member, default_full_body_pii_endpoints,
  classify_messaging_post, listed_action, orders_prefix, middle, messages_prefix,
  messaging_post_actions, request_body_contains_pii, classify_request_body, is_bodyless,
}

-- A test that every key of a map passes holds of the keys that have rules.
every_ruled :
    (p : Text → Bool) (d : Dict Text (List FieldRedaction)) (k : Text)
    → every (λ (kv : Text × List FieldRedaction). p kv.0) d ≡ true
    → has_rules d k ≡ true
    → p k ≡ true
unfolding every has_rules rules_at lookup
every_ruled p [] k h e = cc
every_ruled p ((j, rules) ∷ d) k h e = elim (Bool-cases (text_beq j k)) [
  | inl same ↦
      let named : j ≡ k = (text_beq_iff j k).0 same in subst (λ n. p n ≡ true) named (ground arith)
  | inr other ↦ every_ruled p d k (ground arith) (ground arith)
]

every-member :
    (p : Text → Bool) (names : List Text) (k : Text)
    → every p names ≡ true
    → member k names ≡ true
    → p k ≡ true
unfolding every member any
every-member p [] k h e = cc
every-member p (n ∷ names) k h e = elim (Bool-cases (text_beq n k)) [
  | inl same ↦ subst (λ m. p m ≡ true) ((text_beq_iff n k).0 same) (ground arith)
  | inr other ↦ every-member p names k (ground arith) (ground arith)
]

abbrev is_live : Text → Bool
is_live pattern = text_beq (classify_known pattern).0 pattern && (classify_known pattern).1

rules_are_live : every (λ (kv : Text × List FieldRedaction). is_live kv.0) default_pii_rules ≡ true
unfolding every text_beq classify_known classify_cleaned first_pattern matches has_prefix has_suffix
    clean_path count_byte strip_query trim_right drop_front
rules_are_live = refl

conditional_rules_are_live :
    every (λ (kv : Text × List FieldRedaction). is_live kv.0) conditional_pii_rules ≡ true
unfolding every text_beq classify_known classify_cleaned first_pattern matches has_prefix has_suffix
    clean_path count_byte strip_query trim_right drop_front
conditional_rules_are_live = refl

full_bodies_are_live : every is_live default_full_body_pii_endpoints ≡ true
unfolding every text_beq classify_known classify_cleaned first_pattern matches has_prefix has_suffix
    clean_path count_byte strip_query trim_right drop_front
full_bodies_are_live = refl

-- No default rule is dead: an endpoint that has rules for its response, always or on demand, or whose
-- response is personal as a whole, is a pattern that the endpoint classifier returns for a known path.
default_endpoints_live :
    (pattern : Text)
    → (has_rules new_registry.rules pattern ≡ true)
      ⊎ ((has_rules new_registry.conditional_rules pattern ≡ true)
          ⊎ (member pattern new_registry.full_body_endpoints ≡ true))
    → classify_known pattern ≡ (pattern, true)
unfolding new_registry
default_endpoints_live pattern (inl h) =
    same_pair (classify_known pattern) pattern
      (every_ruled is_live default_pii_rules pattern rules_are_live h)
default_endpoints_live pattern (inr (inl h)) =
    same_pair (classify_known pattern) pattern
      (every_ruled is_live conditional_pii_rules pattern conditional_rules_are_live h)
default_endpoints_live pattern (inr (inr h)) =
    same_pair (classify_known pattern) pattern
      (every-member is_live default_full_body_pii_endpoints pattern full_bodies_are_live h)

index_split :
    (s sub : Text) (i : ℕ)
    → index s sub ≡ some i
    → (s ≡ take i s ++ drop i s) × (has_prefix (drop i s) sub ≡ true)
unfolding index has_prefix
index_split [] sub i h = ground arith
index_split (d ∷ s) sub i h =
    let Splits : ℕ → Type 0 =
      λ n. (d ∷ s ≡ take n (d ∷ s) ++ drop n (d ∷ s)) × (has_prefix (drop n (d ∷ s)) sub ≡ true) in
    elim (Bool-cases (has_prefix (d ∷ s) sub)) [
      | inl here ↦ let at_start : 0 ≡ i = ground arith in subst Splits at_start (refl, here)
      | inr later ↦ elim (Option-cases (index s sub)) [
        | inl missing ↦ let impossible : index (d ∷ s) sub ≡ none = ground arith in cc
        | inr (j, found) ↦
            let next : suc j ≡ i = ground arith in
            let (whole, starts) = index_split s sub j found in
            subst Splits next (ap (λ rest. d ∷ rest) whole, starts)
      ]
    ]

-- What the code takes for a message action: the parts of its path.
pub record IsMessage (r : HttpRequest) (pattern : Text) : Type 0 where
  pub order_id : Text
  pub action : Text
  pub posted : r.method ≡ text "POST"
  pub located : r.path ≡ orders_prefix ++ (order_id ++ (middle ++ action))
  pub listed : member action messaging_post_actions ≡ true
  pub described : pattern ≡ messages_prefix ++ action

abbrev is_ruled : Text → Bool
is_ruled action = has_rules default_request_body_pii_rules (messages_prefix ++ action)

actions_are_ruled : every is_ruled messaging_post_actions ≡ true
unfolding every has_rules rules_at lookup text_beq
actions_are_ruled = refl

listed_action_sound :
    (action pattern : Text)
    → listed_action action ≡ some pattern
    → (member action messaging_post_actions ≡ true) × (pattern ≡ messages_prefix ++ action)
unfolding listed_action
listed_action_sound action pattern h = elim (Bool-cases (action == [] || not (lacks b'/' action))) [
  | inl bad ↦ let none_found : listed_action action ≡ none = rw (bad, listed_action) refl in cc
  | inr plain ↦ elim (Bool-cases (member action messaging_post_actions)) [
    | inl listed ↦
        let found : listed_action action ≡ some (messages_prefix ++ action) =
          rw (plain, listed_action, listed) refl in
        (listed, some-injective pattern (messages_prefix ++ action) (sym h ∙ found))
    | inr unlisted ↦
        let none_found : listed_action action ≡ none = rw (plain, listed_action, unlisted) refl in
        cc
  ]
]

-- A request that is classified as a message is a POST to the messages of an order with a listed
-- action, and its pattern is that action's.
classify_messaging_post_sound :
    (r : HttpRequest) (pattern : Text)
    → classify_messaging_post r ≡ some pattern
    → IsMessage r pattern
unfolding classify_messaging_post
classify_messaging_post_sound r pattern h =
    let rest = drop (length orders_prefix) r.path in
    let none_left : none ≡ some pattern → IsMessage r pattern = λ e. cc in
    elim (Bool-cases (r.method == text "POST")) [
      | inr other ↦ none_left (rw (other, classify_messaging_post) at h)
      | inl posted ↦ elim (Bool-cases (has_prefix r.path orders_prefix)) [
        | inr elsewhere ↦ none_left (rw (posted, classify_messaging_post, elsewhere) at h)
        | inl under ↦ elim (Option-cases (index rest middle)) [
          | inl missing ↦ none_left (rw (posted, classify_messaging_post, under, missing) at h)
          | inr (idx, found) ↦
              let (whole, starts) = index_split rest middle idx found in
              let action = drop (length middle) (drop idx rest) in
              let (listed, described) =
                listed_action_sound action pattern
                  (rw (posted, classify_messaging_post, under, found) at h) in
              record {
                order_id = take idx rest;
                action = action;
                posted = (text_beq_iff r.method (text "POST")).0 posted;
                located =
                    has_prefix_split r.path orders_prefix under
                    ∙ ap (λ t. orders_prefix ++ t)
                        (whole
                          ∙ ap (λ t. take idx rest ++ t)
                              (has_prefix_split (drop idx rest) middle starts));
                listed = listed;
                described = described;
              }
        ]
      ]
    ]

ruled_message :
    (reg : Registry) (r : HttpRequest) (pattern : Text)
    → classify_messaging_post r ≡ some pattern
    → has_rules reg.request_body_rules pattern ≡ true
    → is_bodyless r.method ≡ false
    → request_body_contains_pii reg r ≡ true
unfolding request_body_contains_pii classify_request_body
ruled_message reg r pattern h ruled bodied =
    simp (h, bodied, ruled, request_body_contains_pii, classify_request_body) refl

-- With the default rules, the body of every request that is classified as a message to a buyer counts
-- as personal, whichever message it is.
pub messages_contain_pii :
    (r : HttpRequest) (pattern : Text)
    → classify_messaging_post r ≡ some pattern
    → request_body_contains_pii new_registry r ≡ true
unfolding new_registry
messages_contain_pii r pattern h =
    let m = classify_messaging_post_sound r pattern h in
    let ruled : has_rules default_request_body_pii_rules pattern ≡ true =
      rw m.described
        (every-member is_ruled messaging_post_actions m.action actions_are_ruled m.listed) in
    let bodied : is_bodyless r.method ≡ false = rw m.posted (unfold text_beq in refl) in
    ruled_message new_registry r pattern h ruled bodied
