-- ===== src/Cache/Tests.antt =====
-- Runs of internal/cache beside its store, and the theorems at concrete inputs.
use smart_proxy.Base.{◌≡◌, refl, false, Option, none, List, [], arith, text_beq, every, ◌++◌, ◌∷◌}
use smart_proxy.Base.Text.{Text, text, count_byte}
use smart_proxy.Base.Dict.{Dict}
use smart_proxy.Base.Clean.{lacks}
use smart_proxy.Cache.Memory.{MemoryCache, CachedResponse, get, set, new_memory_cache}
use smart_proxy.Cache.Memory.Invariant.{IsConsistent}
use smart_proxy.Cache.Memory.Steps.{new_memory_cache-IsConsistent}
use smart_proxy.Cache.Memory.Writes.{set-IsConsistent}
use smart_proxy.Cache.Keys.{generate_cache_key, sort_query_params}
use smart_proxy.Cache.Invalidation.{invalidate_on_mutation}
use smart_proxy.Cache.Isolation.{IsMerchant, hashed, named}
use smart_proxy.Cache.Stale.{invalidate_on_mutation_drops, item, slash}
use smart_proxy.Cache.Tiers.{TierConfig, cache_tier_short, never}
use mathlib.Core.List.{head-eq_of_cons-eq}

-- a parser that fails, so that queries stay as they are
abbrev no_query : Text → Option (Dict Text (List Text))
no_query query = none

abbrev order_path : Text
order_path = text "/orders/v0/orders/9-1"

abbrev order_key : Text → Text
order_key m = generate_cache_key no_query m (text "GET") order_path (text "a=b") []

order_key_written : order_key (text "m") ≡ text "m:GET:/orders/v0/orders/9-1?a=b"
unfolding generate_cache_key sort_query_params text_beq
order_key_written = refl

m_IsMerchant : IsMerchant (text "m")
m_IsMerchant =
    named (text "m") (unfold lacks every in refl) (λ same. ground (arith, head-eq_of_cons-eq same))

n_IsMerchant : IsMerchant (text "tokenhash:e3b0")
n_IsMerchant = hashed (text "e3b0") (unfold lacks every in refl)

abbrev response : CachedResponse
response = record {
  status_code = 200;
  headers = [];
  body = text "{}";
  cached_at = 0;
  ttl = 60;
  source_request_id = [];
}

abbrev orders_key : Text
orders_key =
    generate_cache_key no_query (text "m") (text "GET") (text "/orders/v0/orders") (text "a=b") []

filled : MemoryCache
filled = set (new_memory_cache 1_000) orders_key response 60 0

filled-IsConsistent : IsConsistent filled
unfolding filled
filled-IsConsistent =
    set-IsConsistent (new_memory_cache 1_000) orders_key response 60 0
      (new_memory_cache-IsConsistent 1_000)

-- A write to one order, with a slash at its end, drops the list of orders.
invalidate_on_mutation_drops_example :
    (get
      (invalidate_on_mutation filled (text "m") (text "POST") (order_path ++ b'/' ∷ []))
      orders_key
      5).1
    ≡ none
invalidate_on_mutation_drops_example =
    invalidate_on_mutation_drops no_query filled (text "m") (text "POST") (order_path ++ b'/' ∷ [])
      (text "/orders/v0/orders") [] (text "a=b") [] 5 filled-IsConsistent
      (λ same. ground (arith, head-eq_of_cons-eq same))
      (slash order_path (text "/orders/v0/orders") (
        item (text "/orders/v0/orders") (text "9-1") (unfold count_byte in omega arith) (λ same. cc)
          (unfold lacks every in refl)))

abbrev default_minute : TierConfig
default_minute = record (never false) { tier = cache_tier_short; default_ttl = 60_000_000_000 }

-- A merchant whose name has a colon can share a key with another.
colliding_keys :
    generate_cache_key no_query (text "a:GET:/x") (text "GET") (text "/p") [] []
    ≡ generate_cache_key no_query (text "a") (text "GET") (text "/x:GET:/p") [] []
unfolding generate_cache_key sort_query_params text_beq
colliding_keys = refl
