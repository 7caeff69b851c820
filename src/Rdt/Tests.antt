-- ===== src/Rdt/Tests.antt =====
-- Runs of internal/rdt, and the theorems at concrete inputs.
use smart_proxy.Base.{
  ◌+◌, ◌<◌, ◌≡◌, refl, sym, ◌∙◌, ◌≢◌, true, false, none, some, List, [], ◌∷◌, arith, ltb,
  if◌then◌else◌, ◌==◌, nat_eq, text_eq, text_beq, text_beq_iff, ◌⊎◌,
}
use smart_proxy.Base.Text.{
  Text, text, has_prefix, has_suffix, clean_path, index_byte, count_byte, trim_right,
}
use smart_proxy.Base.Dict.{lookup}
use smart_proxy.Rdt.TokenCache.{
  Cache, CacheKey, CacheEntry, key_eq, key_beq_iff, PiiOperation, build_cache_key,
  build_cache_key_perm, get_lem, get_miss, get-set_live, new_cache, invalidate,
}
use smart_proxy.Rdt.TokenCache as TokenCache
use smart_proxy.Rdt.Reports.{
  new_report_tracker, report_flow, track_report_document, lookup_document_report_type,
  track_report_creation,
}
use smart_proxy.Rdt.Matcher.{match_pii_operation, orders_v0_data_elements, first_match, applies}
use smart_proxy.Rdt.Middleware.{
  Request, Upstream, Middleware, handle, handle_pii_operation, with_token, serve_operation,
  serve_with_rdt, serve_minted, mint_with_singleflight, mint_fresh, restored, stripped,
}
use smart_proxy.Rdt.Forwarding.{handle_relays, handle_fails_open, onward}
use smart_proxy.Rdt.Sources.{Source, IsBroken}
use smart_proxy.Rdt.Rejection.{handle_pii_operation_refused, is_refusal}
use mathlib.Core.Bool.{false≢true}

abbrev order_items : PiiOperation
order_items = record {
  generic_path = text "/orders/v0/orders/{orderId}/orderItems";
  method = text "GET";
  data_elements = orders_v0_data_elements;
  cacheable = true;
}

abbrev order_items_path : Text
order_items_path = text "/orders/v0/orders/1-2/orderItems"

-- The address of an order has a rule of its own, with or without a trailing slash.
matched_items : match_pii_operation (text "GET") order_items_path ≡ some order_items
unfolding match_pii_operation first_match applies clean_path count_byte index_byte trim_right
    has_prefix has_suffix text_beq
matched_items = refl

matched_other : match_pii_operation (text "POST") order_items_path ≡ none
unfolding match_pii_operation first_match applies clean_path count_byte index_byte trim_right
    has_prefix has_suffix text_beq
matched_other = refl

abbrev swapped : List Text
swapped = text "shippingAddress" ∷ text "buyerInfo" ∷ text "buyerTaxInformation" ∷ []

abbrev key : CacheKey
key = record { merchant_id = text "m"; generic_path = text "/p"; data_elements = [] }

abbrev stored : CacheEntry
stored = record { token = text "Atz.sprdt|t"; expires_at = 3_600 }

abbrev tokens : Cache
tokens = record { entries = (key, stored) ∷ []; safety_margin = 300 }

report_flow_example :
    lookup_document_report_type
      (track_report_document
        (track_report_creation
          (new_report_tracker 900)
          (text "r1")
          (text "GET_EASYSHIP_DOCUMENTS")
          10)
        (text "r1")
        (text "d1")
        500)
      (text "d1")
      1_401
    ≡ (if ltb (500 + 900) 1_401 then none else some (text "GET_EASYSHIP_DOCUMENTS"))
unfolding new_report_tracker
report_flow_example =
    report_flow (new_report_tracker 900) (text "r1") (text "GET_EASYSHIP_DOCUMENTS") (text "d1") 10
      500 1_401 (omega arith)

abbrev request : Request
request = record {
  method = text "GET";
  path = order_items_path;
  merchant_key = text "m";
  access_token = text "Atza|client";
  force_rdt = [];
  body = [];
  body_fails = false;
}

-- the token API knows one client, and the next handler refuses with 403
abbrev upstream : Upstream
upstream = record {
  next = λ r. record { status = 403; body = [] };
  mint = λ token resource. if token == text "Atza|client" then some stored else none;
  report_type_of = λ body. [];
  report_id_of = λ body. [];
  document_id_of = λ body. [];
}

abbrev closed : Upstream
closed = record upstream { mint = λ token resource. none }

abbrev middleware : Middleware
middleware = record {
  enabled = true;
  cache = record { entries = []; safety_margin = 300 };
  reports = none;
}

handle_relays_example :
    Source upstream middleware request 9 (handle upstream middleware request 9).sent.access_token
    × (((handle upstream middleware request 9).sent
          ≡ with_token
              (onward upstream middleware request)
              (handle upstream middleware request 9).sent.access_token)
        ⊎ ((middleware.enabled ≡ true)
            × IsBroken request
            × ((handle upstream middleware request 9).sent ≡ restored (stripped request))))
    × ((handle upstream middleware request 9).response
        ≡ upstream.next (handle upstream middleware request 9).sent)
handle_relays_example = handle_relays upstream middleware request 9

abbrev restricted : Request
restricted = with_token request (text "Atz.sprdt|mine")

nothing_cached :
    (op : PiiOperation) (entry : CacheEntry)
    → match_pii_operation request.method request.path ≡ some op
    → lookup (build_cache_key request.merchant_key op) middleware.cache.entries ≡ some entry
    → entry.expires_at < 9 + middleware.cache.safety_margin
unfolding lookup
nothing_cached op entry matched found = cc

handle_fails_open_example :
    (handle closed middleware request 9).sent.access_token ≡ request.access_token
handle_fails_open_example =
    handle_fails_open closed middleware request 9 (λ resource. refl) nothing_cached

-- A token is minted, sent and refused.
sent_minted : (handle_pii_operation upstream middleware request 9).sent.access_token ≡ stored.token
unfolding handle_pii_operation serve_operation serve_with_rdt serve_minted mint_with_singleflight
    mint_fresh match_pii_operation first_match applies clean_path count_byte index_byte trim_right
    has_prefix has_suffix text_beq TokenCache.get lookup
sent_minted = refl

answered_403 :
    is_refusal (handle_pii_operation upstream middleware request 9).response.status ≡ true
unfolding handle_pii_operation serve_operation serve_with_rdt serve_minted mint_with_singleflight
    mint_fresh match_pii_operation first_match applies clean_path count_byte index_byte trim_right
    has_prefix has_suffix text_beq TokenCache.get lookup
answered_403 = refl

handle_pii_operation_refused_example :
    lookup
      (build_cache_key request.merchant_key order_items)
      (handle_pii_operation upstream middleware request 9).state.cache.entries
    ≡ none
handle_pii_operation_refused_example =
    handle_pii_operation_refused upstream request middleware 9 order_items matched_items
      (λ same. differ (sym sent_minted ∙ same)) answered_403
  where
    differ : stored.token ≢ request.access_token
    differ e =
        let other : text_beq stored.token request.access_token ≡ false = unfold text_beq in refl in
        false≢true (sym other ∙ (text_beq_iff stored.token request.access_token).1 e)
