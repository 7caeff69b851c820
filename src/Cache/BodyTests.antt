-- ===== src/Cache/BodyTests.antt =====
-- Runs of internal/cache/postcache.go and batch.go, and the theorems at concrete inputs.
use smart_proxy.Base.Clean.{lacks}
use smart_proxy.Base.{
  text_eq, suc, ◌+◌, ◌<◌, ◌≡◌, refl, sym, ap, subst, ◌↔◌, inl, inr, true, false, some, List, [],
  ◌∷◌, arith, text_beq, text_beq_iff, Bool-cases, length, All, every,
}
use smart_proxy.Base.Text.{Text, text, join}
use smart_proxy.Base.Dict.{Dict, lookup}
use smart_proxy.Cache.Http.{HttpRequest, failed, object, SummaryRequest}
use smart_proxy.Cache.Memory.{MemoryCache, CachedResponse, set, new_memory_cache}
use smart_proxy.Cache.Memory.Invariant.{IsConsistent}
use smart_proxy.Cache.Memory.Steps.{new_memory_cache-IsConsistent}
use smart_proxy.Cache.Memory.Writes.{set-IsConsistent}
use smart_proxy.Cache.Memory.Bounds.{get-set}
use smart_proxy.Cache.Tiers.{TierConfig, cache_tier_moderate, never}
use smart_proxy.Cache.Post.{generate_post_cache_key, is_non_identity, strip_non_identity_fields}
use smart_proxy.Cache.Post.Depth.{Shrinks, strip_non_identity_fields_total}
use smart_proxy.Cache.Post.Identity.{Canonical, generate_post_cache_key_ignores}
use smart_proxy.Cache.Batch.{
  extract_foep_key, BatchEndpointConfig, batch_format_bare, foep, extract_key, extract_path_segment,
  extract_competitive_summary_key, batch_element_cache_key,
}
use smart_proxy.Cache.Batch.Elements.{
  parse_elements, handle_batch_cache, hit_reply, encode_elements,
}
use smart_proxy.Cache.Batch.Hits.{FromCache, nothing, next, handle_batch_cache_hit}
use smart_proxy.Cache.Batch.Keys.{extract_competitive_summary_key-perm, extract_path_segment_lem}
use mathlib.Core.List.Perm
use smart_proxy.Cache.Samples.{
  first_body, second_body, first_fields, second_fields, offer_body, encode_ids, json, outside,
  config, listing,
}

abbrev Knows : Text → Dict Text Text → Type 0
Knows v d = All (λ kv. length kv.1 < length v) d

json_Shrinks : Shrinks json
json_Shrinks v d h = elim (Bool-cases (text_beq v first_body)) [
  | inl e ↦
      let same : first_fields ≡ d = ground (arith, rw e at h) in
      subst (Knows v) same
        (subst (λ t. Knows t first_fields) (sym ((text_beq_iff v first_body).0 e)) (ground arith))
  | inr e ↦ elim (Bool-cases (text_beq v second_body)) [
    | inl f ↦
        let same : second_fields ≡ d = ground (arith, rw (e, f) at h) in
        subst (Knows v) same (
          subst (λ t. Knows t second_fields) (sym ((text_beq_iff v second_body).0 f))
            (ground arith))
    | inr f ↦ let no : failed ≡ object d = rw (e, f) at h in absurd (ground (arith, no))
  ]
]

json_Canonical : Canonical json
json_Canonical d e agree = ap encode_ids (agree (text "ids"))

strip_non_identity_fields_total_example :
    (s : Dict Text Text) × (strip_non_identity_fields json (suc (length first_body)) first_fields
      ≡ some s)
    × (strip_non_identity_fields json (suc (length first_body + 3)) first_fields ≡ some s)
strip_non_identity_fields_total_example =
    strip_non_identity_fields_total json json_Shrinks first_body first_fields 3
      (unfold text_beq in refl)

same_identity :
    (k : Text) → is_non_identity k ≡ false → lookup k first_fields ≡ lookup k second_fields
unfolding lookup
same_identity k h =
    ground (arith, text_beq_iff (text "Identifier") k, text_beq_iff k (text "Identifier"))

generate_post_cache_key_ignores_example :
    generate_post_cache_key outside (text "m") (text "/shipping/v1/rates") first_body
    ≡ generate_post_cache_key outside (text "m") (text "/shipping/v1/rates") second_body
generate_post_cache_key_ignores_example =
    generate_post_cache_key_ignores outside json_Shrinks json_Canonical (text "m")
      (text "/shipping/v1/rates") first_body second_body first_fields second_fields
      (unfold text_beq in refl) (unfold text_beq in refl) same_identity

abbrev fees_path : Text
fees_path = text "/products/fees/v0/feesEstimate"

abbrev bare_foep : BatchEndpointConfig
bare_foep = record { format = batch_format_bare; extract_key = foep; wrap_req = []; wrap_resp = [] }

abbrev estimate : HttpRequest
estimate = record listing { method = text "POST"; path = fees_path; body = some offer_body }

abbrev element : CachedResponse
element = record {
  status_code = 200;
  headers = [];
  body = text "{}";
  cached_at = 7;
  ttl = 60;
  source_request_id = text "r1";
}

abbrev element_key : Text
element_key = batch_element_cache_key (text "m") fees_path (text "foep:S:M")

abbrev holding : MemoryCache
holding = set (new_memory_cache 1_000) element_key element 60 7

holding-IsConsistent : IsConsistent holding
holding-IsConsistent =
    set-IsConsistent (new_memory_cache 1_000) element_key element 60 7
      (new_memory_cache-IsConsistent 1_000)

abbrev moderate : TierConfig
moderate = record (never false) {
  tier = cache_tier_moderate;
  default_ttl = 60;
  batch_cacheable = true;
}

element_FromCache :
    FromCache json (text "m") fees_path bare_foep 9 holding (text "{}" ∷ []) (text "{}" ∷ [])
unfolding extract_key extract_foep_key join text_beq
element_FromCache =
    next {elem = text "{}"} {suffix = text "foep:S:M"} refl
      (get-set (new_memory_cache 1_000) element_key element 60 7 9
        (new_memory_cache-IsConsistent 1_000) (omega arith))
      nothing

handle_batch_cache_hit_example :
    ((handle_batch_cache outside holding estimate bare_foep moderate config 9 10).forwarded ≡ false)
    ↔ ((bodies : List Text) × (answer : Text) × FromCache json
          (text "m")
          fees_path
          bare_foep
          9
          holding
          (text "{}" ∷ [])
          bodies
        × (encode_elements json bare_foep bodies ≡ some answer)
        × ((handle_batch_cache outside holding estimate bare_foep moderate config 9 10).reply
            ≡ hit_reply outside answer))
unfolding parse_elements
handle_batch_cache_hit_example =
    handle_batch_cache_hit outside estimate bare_foep moderate config 9 10 offer_body (text "{}") []
      holding holding-IsConsistent refl refl

abbrev summary : List Text → SummaryRequest
summary included = record { asin = text "A"; marketplace_id = text "M"; included_data = included }

extract_competitive_summary_key-perm_example :
    extract_competitive_summary_key (summary (text "b" ∷ text "a" ∷ []))
    ≡ extract_competitive_summary_key (summary (text "a" ∷ text "b" ∷ []))
extract_competitive_summary_key-perm_example =
    extract_competitive_summary_key-perm (text "A") (text "M") (text "b" ∷ text "a" ∷ [])
      (text "a" ∷ text "b" ∷ []) (Perm.swap (text "a") (text "b") [])

extract_path_segment_lem_example :
    extract_path_segment (text "/items/B0/offers?x") (text "/items/") (text "/offers") ≡ text "B0"
extract_path_segment_lem_example =
    extract_path_segment_lem (text "/items/") (text "B0") (text "offers") (text "?x")
      (unfold lacks every in refl)
