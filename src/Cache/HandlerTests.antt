-- ===== src/Cache/HandlerTests.antt =====
-- Runs of internal/cache/middleware.go, and the theorems at concrete inputs.
use smart_proxy.Base.Clean.{lacks}
use smart_proxy.Base.{◌≡◌, refl, ◌∙◌, ◌⊎◌, true, false, none, some, [], arith, text_beq, every}
use smart_proxy.Base.Text.{Text, text, has_prefix}
use smart_proxy.Cache.Http.{Served}
use smart_proxy.Cache.Memory.{MemoryCache, CachedResponse, get, set, new_memory_cache}
use smart_proxy.Cache.Memory.Invariant.{IsConsistent}
use smart_proxy.Cache.Memory.Steps.{get-IsConsistent, new_memory_cache-IsConsistent}
use smart_proxy.Cache.Memory.Bounds.{get-set}
use smart_proxy.Cache.Memory.Spec.{find_entry}
use smart_proxy.Cache.Ttl.{resolve_ttl, relative_ttl}
use smart_proxy.Cache.Isolation.{get-answer, IsMerchant, hashed, named}
use smart_proxy.Cache.Tiers.{classify_get, TierConfig, default_tier_patterns, classify_tier}
use smart_proxy.Cache.Serve.{serve_key, record_and_cache, recorded, miss_reply, ttl_of}
use smart_proxy.Cache.Middleware.{cache_middleware, get_key}
use smart_proxy.Cache.Middleware.Single.{Recorded}
use smart_proxy.Cache.Middleware.Laws.{
  cacheable_get, IsCacheableGet, cache_middleware_isolates, cache_middleware_records,
  cache_middleware_hit,
}
use mathlib.Core.List.{head-eq_of_cons-eq}
use smart_proxy.Cache.Samples.{outside, config, listing}

abbrev empty : MemoryCache
empty = new_memory_cache 1_000

empty-IsConsistent : IsConsistent empty
empty-IsConsistent = new_memory_cache-IsConsistent 1_000

m_IsMerchant : IsMerchant (text "m")
m_IsMerchant =
    named (text "m") (unfold lacks every in refl) (λ same. ground (arith, head-eq_of_cons-eq same))

token_IsMerchant : IsMerchant (text "tokenhash:e3b0")
token_IsMerchant = hashed (text "e3b0") (unfold lacks every in refl)

abbrev after_listing : MemoryCache
after_listing =
    (cache_middleware outside empty default_tier_patterns config listing false 5 7).cache

abbrev other_key : Text
other_key = text "tokenhash:e3b0:GET:/listings/2021-08-01/items/1/S"

cache_middleware_isolates_example :
    ((get after_listing other_key 9).1 ≡ none)
    ⊎ ((get after_listing other_key 9).1 ≡ (get empty other_key 9).1)
cache_middleware_isolates_example =
    cache_middleware_isolates outside default_tier_patterns config empty listing false 5 7 9
      (text "tokenhash:e3b0") (text "GET:/listings/2021-08-01/items/1/S") empty-IsConsistent
      m_IsMerchant token_IsMerchant (λ same. ground (arith, head-eq_of_cons-eq same))

listing-IsCacheableGet : IsCacheableGet outside default_tier_patterns config listing false
unfolding classify_tier classify_get has_prefix text_beq
listing-IsCacheableGet = record {
  enabled = refl;
  reading = refl;
  tiered = refl;
  open_to_cache = refl;
  allowed = refl;
}

abbrev listing_tier : TierConfig
listing_tier = classify_tier default_tier_patterns (text "GET") listing.path false

abbrev listing_key : Text
listing_key = get_key outside listing

abbrev listing_response : CachedResponse
listing_response = recorded outside listing listing_tier config 7

missed : (get empty listing_key 5).1 ≡ none
unfolding new_memory_cache find_entry
missed = get-answer empty listing_key 5 empty-IsConsistent

listing_stored :
    cache_middleware outside empty default_tier_patterns config listing false 5 7 ≡ record {
      cache =
          set
            (get empty listing_key 5).0
            listing_key
            listing_response
            (ttl_of outside listing listing_tier config 7)
            7;
      forwarded = true;
      reply = miss_reply (outside.next [] listing);
    }
unfolding serve_key record_and_cache
listing_stored =
    cacheable_get outside default_tier_patterns config empty listing false 5 7
      listing-IsCacheableGet
    ∙ simp (missed, serve_key, record_and_cache) refl

listing_ttl : ttl_of outside listing listing_tier config 7 ≡ 900_000_000_000
unfolding classify_tier classify_get has_prefix text_beq resolve_ttl relative_ttl
listing_ttl = refl

cache_middleware_records_example :
    ((get empty listing_key 9).1 ≡ some listing_response)
    ⊎ Recorded outside listing 7 listing_response
cache_middleware_records_example =
    cache_middleware_records outside default_tier_patterns config empty listing false 5 7 9
      listing_key listing_response empty-IsConsistent
      (rw listing_stored (
        get-set (get empty listing_key 5).0 listing_key listing_response
          (ttl_of outside listing listing_tier config 7) 7 9
          (get-IsConsistent empty listing_key 5 empty-IsConsistent) (omega (arith, listing_ttl))))

abbrev again : Served
again = cache_middleware outside after_listing default_tier_patterns config listing false 90 91

cache_middleware_hit_example :
    (again.forwarded ≡ false)
    × (again.reply.status_code
        ≡ (cache_middleware outside empty default_tier_patterns config listing false 5
            7).reply.status_code)
    × (again.reply.body
        ≡ (cache_middleware outside empty default_tier_patterns config listing false 5
            7).reply.body)
cache_middleware_hit_example =
    cache_middleware_hit outside default_tier_patterns config empty listing false 5 7 90 91
      empty-IsConsistent listing-IsCacheableGet (rw listing_stored refl) refl
      (omega (arith, listing_ttl))
