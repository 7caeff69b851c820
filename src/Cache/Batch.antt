-- ===== src/Cache/Batch.antt =====
-- internal/cache/batch.go: batch queries, cached element by element. The registry is a map whose
-- prefixes exclude one another (Batch/Keys), so the order of its `range` does not matter.
pub mod Elements
pub mod Keys
pub mod Hits
use smart_proxy.Base.{
  Bool, true, false, not, ◌||◌, Option, none, some, List, [], ◌∷◌, ◌++◌, if◌then◌else◌, ◌==◌,
  nat_eq, text_eq, length, drop, take,
}
use smart_proxy.Base.Text.{Text, text, has_prefix, index, join}
use smart_proxy.Base.Dict.{Dict}
use smart_proxy.Cache.Http.{JsonCodec, OffersRequest, FeesRequest, SummaryRequest, FoepRequest}
use smart_proxy.Base.Sort.{sort_texts}

pub data BatchBodyFormat : Type 0 where
  batch_format_wrapped batch_format_bare : BatchBodyFormat

-- the function that finds an element's key, by its name
pub data KeyExtractor : Type 0 where
  item_offers listing_offers fees competitive_summary foep : KeyExtractor

pub record BatchEndpointConfig : Type 0 where
  pub format : BatchBodyFormat
  pub extract_key : KeyExtractor
  pub wrap_req : Text
  pub wrap_resp : Text

abbrev wrapped : KeyExtractor → BatchEndpointConfig
wrapped extract_key = record {
  format = batch_format_wrapped;
  extract_key = extract_key;
  wrap_req = text "requests";
  wrap_resp = text "responses";
}

abbrev pub batch_endpoint_registry : Dict Text BatchEndpointConfig
batch_endpoint_registry =
    (text "/batches/products/pricing/v0/itemOffers", wrapped item_offers)
    ∷ (text "/batches/products/pricing/v0/listingOffers", wrapped listing_offers)
    ∷ (
      text "/products/fees/v0/feesEstimate",
      record { format = batch_format_bare; extract_key = fees; wrap_req = []; wrap_resp = [] },
    )
    ∷ (
      text "/batches/products/pricing/2022-05-01/items/competitiveSummary",
      wrapped competitive_summary,
    )
    ∷ (text "/batches/products/pricing/2022-05-01/offer/featuredOfferExpectedPrice", wrapped foep)
    ∷ []

unfoldable pub first_config : Text → Dict Text BatchEndpointConfig → Option BatchEndpointConfig
first_config path [] = none
first_config path ((prefix, cfg) ∷ registry) =
    if has_prefix path prefix then some cfg else first_config path registry

unfoldable pub lookup_batch_config : Text → Option BatchEndpointConfig
unfolding first_config
lookup_batch_config path = first_config path batch_endpoint_registry

unfoldable pub extract_path_segment : Text → Text → Text → Text
unfolding index
extract_path_segment uri prefix suffix =
    if not (has_prefix uri prefix)
    then []
    else (let rest = drop (length prefix) uri in
        if suffix == []
        then rest
        else elim (index rest suffix) [ none ↦ [] | some idx ↦ take idx rest ])

-- the parts of a key, with colons between them
abbrev colons : List Text → Text
colons parts = join parts (text ":")

abbrev consumer : Text → Text
consumer customer_type = if customer_type == [] then text "Consumer" else customer_type

abbrev offers_key : Text → Text → OffersRequest → Option Text
offers_key name prefix req =
    let id = extract_path_segment req.uri prefix (text "/offers") in
    if id == []
    then none
    else some (
        colons
          (name ∷ id ∷ req.marketplace_id ∷ req.item_condition ∷ consumer req.customer_type ∷ []))

extract_item_offers_key : OffersRequest → Option Text
unfolding extract_path_segment join
extract_item_offers_key = offers_key (text "itemOffers") (text "/products/pricing/v0/items/")

extract_listing_offers_key : OffersRequest → Option Text
unfolding extract_path_segment join
extract_listing_offers_key =
    offers_key (text "listingOffers") (text "/products/pricing/v0/listings/")

abbrev fulfilled : Option Bool → Text
fulfilled none = text "nil"
fulfilled (some true) = text "true"
fulfilled (some false) = text "false"

extract_fees_key : FeesRequest → Text
unfolding join
extract_fees_key req = colons (
    text "fees"
    ∷ req.id_type
    ∷ req.id_value
    ∷ req.marketplace_id
    ∷ fulfilled req.is_amazon_fulfilled
    ∷ req.listing_price
    ∷ req.currency_code
    ∷ (elim req.shipping [ none ↦ text "0.00" | some amount ↦ amount ])
    ∷ req.fulfillment_program
    ∷ [])

unfoldable pub extract_competitive_summary_key : SummaryRequest → Option Text
unfolding join sort_texts
extract_competitive_summary_key req =
    if req.asin == [] || req.marketplace_id == []
    then none
    else some (
        colons (
          text "competitiveSummary"
          ∷ req.asin
          ∷ req.marketplace_id
          ∷ join (sort_texts req.included_data) (text ",")
          ∷ []))

unfoldable pub extract_foep_key : FoepRequest → Option Text
unfolding join
extract_foep_key req =
    if req.sku == [] || req.marketplace_id == []
    then none
    else some (colons (text "foep" ∷ req.sku ∷ req.marketplace_id ∷ []))

abbrev bind {ℓ} : {A B : Type ℓ} → Option A → (A → Option B) → Option B
bind none f = none
bind (some a) f = f a

unfoldable pub extract_key : JsonCodec → KeyExtractor → Text → Option Text
unfolding extract_item_offers_key extract_listing_offers_key extract_fees_key
    extract_competitive_summary_key extract_foep_key
extract_key json item_offers elem = bind (json.decode_offers elem) extract_item_offers_key
extract_key json listing_offers elem = bind (json.decode_offers elem) extract_listing_offers_key
extract_key json fees elem = bind (json.decode_fees elem) (λ req. some (extract_fees_key req))
extract_key json competitive_summary elem =
    bind (json.decode_summary elem) extract_competitive_summary_key
extract_key json foep elem = bind (json.decode_foep elem) extract_foep_key

abbrev pub batch_element_cache_key : Text → Text → Text → Text
batch_element_cache_key merchant_key path element_suffix =
    merchant_key ++ (text ":BATCH:" ++ (path ++ b':' ∷ element_suffix))
