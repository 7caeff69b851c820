-- ===== src/Cache/Tiers.antt =====
-- internal/cache/tiers.go: how long an answer may be cached, by the prefix of its path. Durations are
-- nanoseconds. The answer of the checker of personal data is an argument.
use smart_proxy.Base.{
  ℕ, ◌*◌, ◌≡◌, refl, ◌≢◌, ◌⊎◌, inl, inr, Bool, true, false, not, ◌&&◌, ◌||◌, List, [], ◌∷◌, arith,
  if◌then◌else◌, ◌==◌, nat_eq, text_eq, text_beq_iff, Bool-cases,
}
use smart_proxy.Base.Text.{Text, text, has_prefix}

pub data CacheTier : Type 0 where
  cache_tier_aggressive cache_tier_moderate cache_tier_short cache_tier_never : CacheTier

pub record TierConfig : Type 0 where
  pub tier : CacheTier
  pub default_ttl : ℕ
  pub pii_excluded : Bool
  pub batch_cacheable : Bool
  pub post_cacheable : Bool

pub record TierPattern : Type 0 where
  pub prefix : Text
  pub tier : CacheTier
  pub ttl : ℕ
  pub batch_cacheable : Bool
  pub post_cacheable : Bool

abbrev second : ℕ
second = 1_000_000_000

abbrev minute : ℕ
minute = 60_000_000_000

abbrev hour : ℕ
hour = 3_600_000_000_000

abbrev tier_pattern : Text → CacheTier → ℕ → Bool → Bool → TierPattern
tier_pattern prefix tier ttl batch post = record {
  prefix = prefix;
  tier = tier;
  ttl = ttl;
  batch_cacheable = batch;
  post_cacheable = post;
}

abbrev get_pattern : Text → CacheTier → ℕ → TierPattern
get_pattern prefix tier ttl = tier_pattern prefix tier ttl false false

abbrev batch_pattern : Text → CacheTier → ℕ → TierPattern
batch_pattern prefix tier ttl = tier_pattern prefix tier ttl true false

abbrev post_pattern : Text → CacheTier → ℕ → TierPattern
post_pattern prefix tier ttl = tier_pattern prefix tier ttl false true

abbrev pub default_tier_patterns : List TierPattern
default_tier_patterns =
    get_pattern (text "/tokens/") cache_tier_never 0
    ∷ get_pattern (text "/uploads/") cache_tier_never 0
    ∷ get_pattern (text "/applications/") cache_tier_never 0
    ∷ get_pattern (text "/authorization/") cache_tier_never 0
    ∷ get_pattern (text "/definitions/") cache_tier_aggressive (24 * hour)
    ∷ get_pattern (text "/catalog/") cache_tier_aggressive (12 * hour)
    ∷ get_pattern (text "/sellers/") cache_tier_aggressive (12 * hour)
    ∷ get_pattern (text "/fba/inbound/eligibility/") cache_tier_moderate (12 * hour)
    ∷ get_pattern (text "/reports/2021-06-30/documents/") cache_tier_short (4 * minute)
    ∷ get_pattern (text "/feeds/2021-06-30/documents/") cache_tier_short (4 * minute)
    ∷ get_pattern (text "/datakiosk/2023-11-15/documents/") cache_tier_short (4 * minute)
    ∷ get_pattern (text "/reports/") cache_tier_moderate (10 * minute)
    ∷ get_pattern (text "/feeds/") cache_tier_moderate (2 * minute)
    ∷ get_pattern (text "/listings/") cache_tier_moderate (15 * minute)
    ∷ get_pattern (text "/aplus/") cache_tier_moderate (30 * minute)
    ∷ get_pattern (text "/sales/") cache_tier_moderate (15 * minute)
    ∷ get_pattern (text "/fba/inventory/") cache_tier_moderate (5 * minute)
    ∷ get_pattern (text "/fba/inbound/") cache_tier_moderate (10 * minute)
    ∷ get_pattern (text "/fba/outbound/") cache_tier_moderate (10 * minute)
    ∷ get_pattern (text "/fba/smallAndLight/") cache_tier_moderate (24 * hour)
    ∷ get_pattern (text "/fba/") cache_tier_moderate (10 * minute)
    ∷ get_pattern (text "/mfn/") cache_tier_moderate (15 * minute)
    ∷ get_pattern (text "/supplySources/") cache_tier_moderate (1 * hour)
    ∷ get_pattern (text "/finances/") cache_tier_moderate (15 * minute)
    ∷ get_pattern (text "/notifications/") cache_tier_moderate (30 * minute)
    ∷ get_pattern (text "/shipping/") cache_tier_moderate (15 * minute)
    ∷ get_pattern (text "/solicitations/") cache_tier_moderate (1 * hour)
    ∷ get_pattern (text "/easyShip/") cache_tier_moderate (10 * minute)
    ∷ get_pattern (text "/messaging/") cache_tier_moderate (30 * minute)
    ∷ get_pattern (text "/vendor/") cache_tier_moderate (15 * minute)
    ∷ get_pattern (text "/datakiosk/") cache_tier_moderate (2 * minute)
    ∷ get_pattern (text "/replenishment/") cache_tier_moderate (1 * hour)
    ∷ get_pattern (text "/awd/") cache_tier_moderate (10 * minute)
    ∷ batch_pattern (text "/batches/products/pricing/") cache_tier_moderate (5 * minute)
    ∷ batch_pattern (text "/products/fees/v0/feesEstimate") cache_tier_aggressive (12 * hour)
    ∷ post_pattern (text "/products/fees/v0/items/") cache_tier_aggressive (12 * hour)
    ∷ post_pattern (text "/products/fees/v0/listings/") cache_tier_aggressive (12 * hour)
    ∷ post_pattern (text "/shipping/v2/shipments/rates") cache_tier_moderate (4 * hour)
    ∷ post_pattern (text "/shipping/v1/rates") cache_tier_moderate (4 * hour)
    ∷ post_pattern (text "/mfn/v0/eligibleShippingServices") cache_tier_moderate (6 * hour)
    ∷ post_pattern (text "/mfn/v0/additionalSellerInputs") cache_tier_aggressive (24 * hour)
    ∷ post_pattern (text "/fba/outbound/2020-07-01/fulfillmentOrders/preview") cache_tier_moderate
        (2 * hour)
    ∷ post_pattern (text "/easyShip/2022-03-23/timeSlot") cache_tier_moderate (1 * hour)
    ∷ post_pattern (text "/replenishment/2022-11-07/sellingPartners/metrics/search")
        cache_tier_moderate (6 * hour)
    ∷ post_pattern (text "/replenishment/2022-11-07/offers/metrics/search") cache_tier_moderate
        (6 * hour)
    ∷ post_pattern (text "/replenishment/2022-11-07/offers/search") cache_tier_moderate (6 * hour)
    ∷ get_pattern (text "/orders/") cache_tier_short (60 * second)
    ∷ get_pattern (text "/products/pricing/") cache_tier_short (60 * second)
    ∷ get_pattern (text "/products/fees/") cache_tier_short (60 * second)
    ∷ get_pattern (text "/products/") cache_tier_short (60 * second)
    ∷ []

abbrev pub never : Bool → TierConfig
never pii = record {
  tier = cache_tier_never;
  default_ttl = 0;
  pii_excluded = pii;
  batch_cacheable = false;
  post_cacheable = false;
}

abbrev of_pattern : TierPattern → TierConfig
of_pattern p = record {
  tier = p.tier;
  default_ttl = p.ttl;
  pii_excluded = false;
  batch_cacheable = p.batch_cacheable;
  post_cacheable = p.post_cacheable;
}

-- the loop over the patterns for POST
unfoldable pub classify_post : List TierPattern → Text → TierConfig
classify_post [] path = never false
classify_post (p ∷ ps) path =
    if (p.batch_cacheable || p.post_cacheable) && has_prefix path p.prefix
    then of_pattern p
    else classify_post ps path

-- the loop over the patterns for GET; an unknown endpoint is short
unfoldable pub classify_get : List TierPattern → Text → TierConfig
classify_get [] path = record (never false) { tier = cache_tier_short; default_ttl = 60 * second }
classify_get (p ∷ ps) path =
    if p.post_cacheable || p.batch_cacheable
    then classify_get ps path
    else if has_prefix path p.prefix
    then record (never false) { tier = p.tier; default_ttl = p.ttl }
    else classify_get ps path

-- `pii` is the checker's answer for the request, false where there is no checker
unfoldable pub classify_tier : List TierPattern → Text → Text → Bool → TierConfig
classify_tier patterns method path pii =
    if not (method == text "GET")
    then (if method == text "POST" then classify_post patterns path else never false)
    else if pii
    then never true
    else classify_get patterns path

classify_post_flagged :
    (ps : List TierPattern) (path : Text)
    → ((classify_post ps path).tier ≡ cache_tier_never)
      ⊎ ((classify_post ps path).batch_cacheable || (classify_post ps path).post_cacheable) ≡ true
unfolding classify_post
classify_post_flagged [] path = inl refl
classify_post_flagged (p ∷ ps) path = ground (arith, classify_post_flagged ps path)

classify_get_plain :
    (ps : List TierPattern) (path : Text)
    → ((classify_get ps path).batch_cacheable ≡ false)
      × ((classify_get ps path).post_cacheable ≡ false)
unfolding classify_get
classify_get_plain [] path = (refl, refl)
classify_get_plain (p ∷ ps) path = ground (arith, classify_get_plain ps path)

-- Only two kinds of requests are classified for caching, whatever the table: a GET that the checker of
-- personal data does not object to, which is never taken for a batch or a POST query, and a POST to an
-- endpoint that is marked as one of these.
pub classify_tier_cacheable :
    (ps : List TierPattern) (method path : Text) (pii : Bool)
    → (classify_tier ps method path pii).tier ≢ cache_tier_never
    → ((method ≡ text "GET")
        × (pii ≡ false)
        × ((classify_tier ps method path pii).batch_cacheable ≡ false)
        × ((classify_tier ps method path pii).post_cacheable ≡ false))
      ⊎ ((method ≡ text "POST")
          × (((classify_tier ps method path pii).batch_cacheable
                || (classify_tier ps method path pii).post_cacheable)
              ≡ true))
unfolding classify_tier
classify_tier_cacheable ps method path pii h = elim (Bool-cases (method == text "GET")) [
  | inl reading ↦ elim (Bool-cases pii) [
    | inl personal ↦ absurd (h (rw (reading, classify_tier, personal) refl))
    | inr clear ↦ inl (
      (text_beq_iff method (text "GET")).0 reading,
      clear,
      rw (reading, classify_tier, clear) (classify_get_plain ps path).0,
      rw (reading, classify_tier, clear) (classify_get_plain ps path).1,
    )
  ]
  | inr writing ↦ elim (Bool-cases (method == text "POST")) [
    | inl posting ↦ elim (classify_post_flagged ps path) [
      | inl none_found ↦ absurd (h (rw (writing, classify_tier, posting) none_found))
      | inr flagged ↦ inr (
        (text_beq_iff method (text "POST")).0 posting,
        rw (writing, classify_tier, posting) flagged,
      )
    ]
    | inr other ↦ absurd (h (rw (writing, classify_tier, other) refl))
  ]
]
