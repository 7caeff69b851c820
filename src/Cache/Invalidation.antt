-- ===== src/Cache/Invalidation.antt =====
-- internal/cache/invalidation.go: what a write removes from the cache.
use smart_proxy.Base.{
  ◌+◌, ◌-◌, not, ◌||◌, Option, none, some, List, [], ◌∷◌, ◌++◌, leb, if◌then◌else◌, ◌==◌, nat_eq,
  text_eq, length, take, drop,
}
use smart_proxy.Base.Text.{Text, text, has_prefix, split, join, index, trim_right}
use smart_proxy.Cache.Memory.{MemoryCache, delete_by_prefix}

abbrev slash_parts : Text → List Text
slash_parts path = split path b'/'

unfoldable pub extract_resource_prefix : Text → Text
unfolding trim_right split join
extract_resource_prefix path =
    let trimmed = trim_right path b'/' in
    let parts = slash_parts trimmed in
    if leb (length parts) 4 then trimmed else join (take (length parts - 1) parts) (text "/")

-- strings.SplitN(s, "/", 2)[1], where there are two parts
unfoldable pub after_slash : Text → Option Text
after_slash [] = none
after_slash (c ∷ s) = if c == b'/' then some s else after_slash s

abbrev items_segment : Text
items_segment = text "/items/"

-- the SKU that a path of a listing names, `none` where the code returns early
unfoldable pub listing_sku : Text → Option Text
unfolding index after_slash trim_right
listing_sku path =
    if not (has_prefix path (text "/listings/")) then none else elim (index path items_segment) [
      | none ↦ none
      | some idx ↦ elim (after_slash (drop (idx + length items_segment) path)) [
        | none ↦ none
        | some part ↦ let sku = trim_right part b'/' in if sku == [] then none else some sku
      ]
    ]

abbrev pub batch_prefix : Text → Text → Text
batch_prefix merchant_key sku =
    merchant_key
    ++ (text ":BATCH:/batches/products/pricing/v0/listingOffers:listingOffers:"
        ++ (sku ++ text ":"))

unfoldable pub invalidate_batch_listing_offers : MemoryCache → Text → Text → MemoryCache
unfolding listing_sku
invalidate_batch_listing_offers mc merchant_key path = elim (listing_sku path) [
  | none ↦ mc
  | some sku ↦ delete_by_prefix mc (batch_prefix merchant_key sku)
]

abbrev pub get_prefix : Text → Text → Text
get_prefix merchant_key path = merchant_key ++ (text ":GET:" ++ extract_resource_prefix path)

unfoldable pub invalidate_on_mutation : MemoryCache → Text → Text → Text → MemoryCache
invalidate_on_mutation mc merchant_key method path =
    if method == text "GET"
    then mc
    else (let mc' = delete_by_prefix mc (get_prefix merchant_key path) in
        if method == text "PUT" || method == text "PATCH"
        then invalidate_batch_listing_offers mc' merchant_key path
        else mc')
