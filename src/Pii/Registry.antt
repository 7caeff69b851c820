-- ===== src/Pii/Registry.antt =====
-- internal/pii/registry.go: which requests and responses carry personal data. A request is its method,
-- its path and its parsed query; a set of names is the list of them.
use smart_proxy.Base.{
  ℕ, zero, suc, ◌+◌, ◌-◌, ◌*◌, ◌/◌, ◌%◌, ◌^◌, ◌≤◌, ◌<◌, ◌≡◌, refl, sym, ap, subst, ◌∙◌, ◌≢◌, ◌↔◌,
  ◌⊎◌, inl, inr, Bool, true, false, not, ◌&&◌, ◌||◌, Option, none, some, List, [], ◌∷◌, ◌++◌, map,
  arith, ltb, leb, if◌then◌else◌, Eq, ◌==◌, nat_eq, text_eq, text_beq, nat_beq_iff, text_beq_iff,
  Bool-cases, Option-cases, length, All, keep, drop, any,
}
use smart_proxy.Base.Text
use smart_proxy.Base.Text.{Text, text, has_prefix, has_suffix, index, split, to_lower, count_byte}
use smart_proxy.Base.Dict.{Dict, lookup, insert, erase, IsDistinct, lookup-insert, lookup-erase}
use smart_proxy.Base.Clean.{lacks}
use smart_proxy.Endpoint.Classify.{classify_known}
use smart_proxy.Pii.Rules.{FieldRedaction}
use smart_proxy.Pii.Rules.Response.{default_pii_rules}
use smart_proxy.Pii.Rules.Conditional.{conditional_pii_rules}
use smart_proxy.Pii.Rules.RequestBody.{default_request_body_pii_rules}
use mathlib.Core.List.{reverse}
pub mod Agreement
pub mod Messaging

pub record HttpRequest : Type 0 where
  pub method : Text
  pub path : Text
  pub query : Dict Text (List Text)

abbrev pub default_full_body_pii_endpoints : List Text
default_full_body_pii_endpoints =
    text "/orders/v0/orders/{orderId}/buyerInfo"
    ∷ text "/orders/v0/orders/{orderId}/address"
    ∷ text "/orders/v0/orders/{orderId}/orderItems/buyerInfo"
    ∷ text "/messaging/v1/orders/{orderId}/messages/{messageId}"
    ∷ text "/vendor/directFulfillment/shipping/2021-12-28/packingSlips/{purchaseOrderNumber}"
    ∷ []

pub record Registry : Type 0 where
  pub rules : Dict Text (List FieldRedaction)
  pub conditional_rules : Dict Text (List FieldRedaction)
  pub request_body_rules : Dict Text (List FieldRedaction)
  pub full_body_endpoints : List Text
  pub fail_closed : Bool
  pub query_params_extra : List Text

unfoldable pub new_registry : Registry
new_registry = record {
  rules = default_pii_rules;
  conditional_rules = conditional_pii_rules;
  request_body_rules = default_request_body_pii_rules;
  full_body_endpoints = default_full_body_pii_endpoints;
  fail_closed = false;
  query_params_extra = [];
}

unfoldable pub set_fail_closed : Registry → Bool → Registry
set_fail_closed reg v = record reg { fail_closed = v }

-- unicode.IsSpace on ASCII bytes
abbrev is_space : ℕ → Bool
is_space c = leb 9 c && leb c 13 || c == 32

unfoldable pub drop_space : Text → Text
drop_space [] = []
drop_space (c ∷ s) = if is_space c then drop_space s else c ∷ s

-- strings.TrimSpace
unfoldable pub trim_space : Text → Text
unfolding drop_space
trim_space s = reverse (drop_space (reverse (drop_space s)))

unfoldable pub member : Text → List Text → Bool
unfolding any
member s names = any (λ n. n == s) names

-- the additions to `queryParamsExtra`, name by name
unfoldable pub extra_names : List Text → List Text
unfolding trim_space to_lower
extra_names [] = []
extra_names (e ∷ extras) =
    let name = trim_space (to_lower e) in
    if name == [] then extra_names extras else name ∷ extra_names extras

unfoldable pub new_registry_with_extras : List Text → Registry
unfolding new_registry extra_names
new_registry_with_extras extras = record new_registry { query_params_extra = extra_names extras }

-- m[pattern], nil on a missing key
unfoldable pub rules_at : Dict Text (List FieldRedaction) → Text → List FieldRedaction
unfolding lookup
rules_at d pattern = elim (lookup pattern d) [ none ↦ [] | some rules ↦ rules ]

unfoldable pub has_rules : Dict Text (List FieldRedaction) → Text → Bool
unfolding rules_at
has_rules d pattern = ltb 0 (length (rules_at d pattern))

unfoldable pub rules_for : Registry → Text → List FieldRedaction
unfolding has_rules rules_at
rules_for reg pattern =
    if has_rules reg.conditional_rules pattern
    then rules_at reg.rules pattern ++ rules_at reg.conditional_rules pattern
    else rules_at reg.rules pattern

unfoldable pub is_full_body_pii : Registry → Text → Bool → Bool
is_full_body_pii reg pattern known =
    if member pattern reg.full_body_endpoints
    then true
    else if not reg.fail_closed
    then false
    else if has_rules reg.rules pattern
    then false
    else if has_rules reg.conditional_rules pattern
    then false
    else not known

abbrev pub pii_query_values : Dict Text (List Text)
pii_query_values =
    (text "dataElements", text "buyerInfo" ∷ text "shippingAddress" ∷ [])
    ∷ (text "includedData", text "BUYER" ∷ text "RECIPIENT" ∷ [])
    ∷ []

-- q[key], nil on a missing key
unfoldable pub values_at : Dict Text (List Text) → Text → List Text
unfolding lookup
values_at q key = elim (lookup key q) [ none ↦ [] | some vals ↦ vals ]

-- the four nested loops over the query
unfoldable pub query_selects_pii : Dict Text (List Text) → Bool
unfolding any values_at split member trim_space
query_selects_pii q =
    any
      (λ (kv : Text × List Text).
        any (λ val. any (λ elem. member (trim_space elem) kv.1) (split val b','))
          (values_at q kv.0))
      pii_query_values

unfoldable pub contains_pii : Registry → HttpRequest → Bool
contains_pii reg r =
    let (pattern, known) = classify_known r.path in
    if not (r.method == text "GET")
    then false
    else if member pattern reg.full_body_endpoints
    then true
    else if has_rules reg.rules pattern
    then true
    else if query_selects_pii r.query
    then true
    else reg.fail_closed && not known

abbrev pub messaging_post_actions : List Text
messaging_post_actions =
    text "createConfirmServiceDetails"
    ∷ text "createConfirmDeliveryDetails"
    ∷ text "createUnexpectedProblem"
    ∷ text "createConfirmOrderDetails"
    ∷ text "createWarranty"
    ∷ text "createDigitalAccessKey"
    ∷ text "createLegalDisclosure"
    ∷ text "createAmazonMotors"
    ∷ text "sendInvoice"
    ∷ text "confirmCustomizationDetails"
    ∷ []

abbrev pub orders_prefix : Text
orders_prefix = text "/messaging/v1/orders/"

abbrev pub middle : Text
middle = text "/messages/"

abbrev pub messages_prefix : Text
messages_prefix = text "/messaging/v1/orders/{orderId}/messages/"

-- the last two tests of `classifyMessagingPOST`; `none` is the code's ""
unfoldable pub listed_action : Text → Option Text
unfolding lacks
listed_action action =
    if action == [] || not (lacks b'/' action)
    then none
    else if not (member action messaging_post_actions)
    then none
    else some (messages_prefix ++ action)

unfoldable pub classify_messaging_post : HttpRequest → Option Text
classify_messaging_post r =
    if not (r.method == text "POST")
    then none
    else if not (has_prefix r.path orders_prefix)
    then none
    else (let rest = drop (length orders_prefix) r.path in
        elim (index rest middle) [
          | none ↦ none
          | some idx ↦ listed_action (drop (length middle) (drop idx rest))
        ])

unfoldable pub request_body_rules_for : Registry → Text → List FieldRedaction
unfolding rules_at
request_body_rules_for reg pattern = rules_at reg.request_body_rules pattern

-- the pattern, whether it has rules, and whether the path is known
unfoldable pub classify_request_body : Registry → HttpRequest → Text × (Bool × Bool)
unfolding has_rules
classify_request_body reg r = elim (classify_messaging_post r) [
  | some msg ↦ (msg, (has_rules reg.request_body_rules msg, true))
  | none ↦ let (p, ok) = classify_known r.path in (p, (has_rules reg.request_body_rules p, ok))
]

abbrev pub is_bodyless : Text → Bool
is_bodyless method = method == text "GET" || method == text "HEAD" || method == text "OPTIONS"

unfoldable pub request_body_contains_pii : Registry → HttpRequest → Bool
request_body_contains_pii reg r =
    let (pattern, (ruled, known)) = classify_request_body reg r in
    if is_bodyless r.method
    then false
    else if ruled
    then true
    else if reg.fail_closed && not known
    then true
    else false

unfoldable pub request_body_pattern : Registry → HttpRequest → Text
request_body_pattern reg r =
    let (pattern, (ruled, known)) = classify_request_body reg r in
    if is_bodyless r.method
    then []
    else if ruled
    then pattern
    else if reg.fail_closed && not known
    then pattern
    else []
