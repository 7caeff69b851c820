-- ===== src/Pii/Query.antt =====
-- internal/pii/query.go and internal/pii/headers.go: what is logged of a query string and of headers.
use smart_proxy.Base.{
  ℕ, zero, suc, ◌+◌, ◌-◌, ◌*◌, ◌/◌, ◌%◌, ◌^◌, ◌≤◌, ◌<◌, ◌≡◌, refl, sym, ap, subst, ◌∙◌, ◌≢◌, ◌↔◌,
  ◌⊎◌, inl, inr, Bool, true, false, not, ◌&&◌, ◌||◌, Option, none, some, List, [], ◌∷◌, ◌++◌, map,
  arith, ltb, leb, if◌then◌else◌, Eq, ◌==◌, nat_eq, text_eq, text_beq, nat_beq_iff, text_beq_iff,
  Bool-cases, Option-cases, length, All, keep, take,
}
use smart_proxy.Base.Text
use smart_proxy.Base.Text.{Text, text, has_prefix, has_suffix, to_lower, index_byte, split, join}
use smart_proxy.Base.Dict.{Dict, lookup, insert, erase, IsDistinct, lookup-insert, lookup-erase}
use smart_proxy.Pii.Registry.{member}
pub mod Laws

abbrev pub default_pii_query_params : List Text
default_pii_query_params = text "buyeremail" ∷ text "buyername" ∷ []

abbrev pub query_redacted_value : Text
query_redacted_value = text "%5BREDACTED%5D"

-- the test of a lower-cased name; a nil map of extra names is the empty list
unfoldable pub is_pii_param : List Text → Text → Bool
unfolding to_lower
is_pii_param extra_lower key =
    let lowered = to_lower key in
    member lowered default_pii_query_params || member lowered extra_lower

-- the body of the loop over the parts
unfoldable pub redact_part : List Text → Text → Text
unfolding index_byte
redact_part extra_lower part = elim (index_byte part b'=') [
  | none ↦ part
  | some eq ↦
      let key = take eq part in
      if is_pii_param extra_lower key then key ++ b'=' ∷ query_redacted_value else part
]

unfoldable pub redact_query_string : Text → List Text → Text
unfolding join split
redact_query_string raw_query extra_lower =
    if raw_query == []
    then []
    else join (map (redact_part extra_lower) (split raw_query b'&')) (text "&")

abbrev pub sensitive_headers : List Text
sensitive_headers =
    text "x-amz-access-token"
    ∷ text "authorization"
    ∷ text "x-amz-security-token"
    ∷ text "set-cookie"
    ∷ text "cookie"
    ∷ []

abbrev pub is_sensitive : Text → Bool
is_sensitive k = member (to_lower k) sensitive_headers

unfoldable pub redact_headers : Dict Text (List Text) → Dict Text (List Text)
redact_headers [] = []
redact_headers ((k, vals) ∷ headers) =
    if is_sensitive k
    then (k, text "[REDACTED]" ∷ []) ∷ redact_headers headers
    else (k, vals) ∷ redact_headers headers
