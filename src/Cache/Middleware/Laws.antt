-- ===== src/Cache/Middleware/Laws.antt =====
-- The handler of internal/cache/middleware.go with everything below it: single GET and POST queries, batches,
-- writes, and requests that go past the cache.
use smart_proxy.Base.{
  ℕ, ◌+◌, ◌≤◌, ◌≡◌, refl, sym, subst, ◌∙◌, ◌≢◌, ◌⊎◌, inl, inr, Bool, true, false, ◌&&◌, none, some,
  List, [], ◌∷◌, ◌++◌, ◌==◌, nat_eq, text_eq, text_beq, Option-cases,
}
use smart_proxy.Base.Text.{Text, text}
use smart_proxy.Cache.Http.{HttpRequest, CacheConfig, Outside}
use smart_proxy.Cache.Memory.{MemoryCache, CachedResponse, get, set}
use smart_proxy.Cache.Memory.Invariant.{IsConsistent}
use smart_proxy.Cache.Memory.Bounds.{get-set}
use smart_proxy.Cache.Memory.Steps.{get-IsConsistent}
use smart_proxy.Cache.Isolation.{IsMerchant}
use smart_proxy.Cache.Tiers.{TierPattern, classify_tier}
use smart_proxy.Cache.Serve.{
  serve_key, record_and_cache, is_success, ttl_of, serve_cached_response, miss_reply, recorded,
}
use smart_proxy.Cache.Middleware.{
  get_key, cache_middleware, serve_cacheable, handle_cache_preconditions, is_never,
}
use smart_proxy.Cache.Middleware.Own.{Own-IsConsistent, Own_isolates, Own_origin}
use smart_proxy.Cache.Middleware.Owned.{cache_middleware-Own}
use smart_proxy.Cache.Middleware.Single.{Recorded}

module _ (out : Outside) (tiers : List TierPattern) (cfg : CacheConfig) where
  -- Whatever the request and the next handler's answer, the cache's map, recency list and byte count
  -- still agree after it.
  cache_middleware-IsConsistent :
      (mc : MemoryCache) (r : HttpRequest) (pii : Bool) (now later : ℕ)
      → IsConsistent mc
      → IsConsistent (cache_middleware out mc tiers cfg r pii now later).cache
  cache_middleware-IsConsistent mc r pii now later w =
      Own-IsConsistent w (cache_middleware-Own out r later mc tiers cfg pii now)

  -- No merchant can plant an answer for another. After a request of one merchant, of whatever kind, a
  -- read under another's key finds what it found before, or nothing (entries may be evicted). Merchants
  -- are named without a colon or by the hash of a token, and the parts of the cache agree.
  pub cache_middleware_isolates :
      (mc : MemoryCache) (r : HttpRequest) (pii : Bool) (now later clock : ℕ) (n rest : Text)
      → IsConsistent mc
      → IsMerchant r.merchant_key
      → IsMerchant n
      → r.merchant_key ≢ n
      → ((get (cache_middleware out mc tiers cfg r pii now later).cache (n ++ b':' ∷ rest) clock).1
          ≡ none)
        ⊎ ((get
              (cache_middleware out mc tiers cfg r pii now later).cache
              (n ++ b':' ∷ rest)
              clock).1
            ≡ (get mc (n ++ b':' ∷ rest) clock).1)
  cache_middleware_isolates mc r pii now later clock n rest w h k differ =
      Own_isolates rest w h k differ _ clock (cache_middleware-Own out r later mc tiers cfg pii now)

  -- Errors are never cached. What a read finds after a request, in a cache whose parts agree, could be
  -- read before it, or was recorded for this request while the next handler answered it with a status
  -- 2xx, and has a status 2xx itself. Then it is the whole of that answer, or, for a batch, an element
  -- of the answer that reports a success of its own: a status code from 200 to 299 in the wrapped
  -- format, the status Success in the bare one.
  pub cache_middleware_records :
      (mc : MemoryCache) (r : HttpRequest) (pii : Bool) (now later clock : ℕ) (k : Text)
      (resp : CachedResponse)
      → IsConsistent mc
      → (get (cache_middleware out mc tiers cfg r pii now later).cache k clock).1 ≡ some resp
      → ((get mc k clock).1 ≡ some resp) ⊎ Recorded out r later resp
  cache_middleware_records mc r pii now later clock k resp w found =
      Own_origin k w _ clock resp (cache_middleware-Own out r later mc tiers cfg pii now) found

  -- A GET that may be cached: nothing sends it past the cache.
  pub record IsCacheableGet (r : HttpRequest) (pii : Bool) : Type 0 where
    pub enabled : cfg.enabled ≡ true
    pub reading : r.method ≡ text "GET"
    pub tiered : is_never (classify_tier tiers r.method r.path pii).tier ≡ false
    pub open_to_cache :
        (cfg.exclude_pii && (classify_tier tiers r.method r.path pii).pii_excluded) ≡ false
    pub allowed : (r.no_cache == text "true") ≡ false

  -- such a GET is a lookup of its key
  pub cacheable_get :
      (mc : MemoryCache) (r : HttpRequest) (pii : Bool) (now later : ℕ)
      → IsCacheableGet r pii
      → cache_middleware out mc tiers cfg r pii now later
        ≡ serve_key out mc (get_key out r) r (classify_tier tiers r.method r.path pii) cfg now later
  unfolding cache_middleware handle_cache_preconditions serve_cacheable text_beq
  cacheable_get mc r pii now later c =
      let tier = classify_tier tiers r.method r.path pii in
      let posting : (r.method == text "POST") ≡ false =
        subst (λ t. text_beq t (text "POST") ≡ false) (sym c.reading) refl in
      let passed : handle_cache_preconditions out mc r tier cfg ≡ none =
        simp (c.tiered, c.open_to_cache, c.allowed, handle_cache_preconditions) refl in
      let served : serve_cacheable out mc r tier cfg now later
          ≡ serve_key out mc (get_key out r) r tier cfg now later =
        simp (posting, serve_cacheable) refl in
      simp (c.enabled, passed, cache_middleware) served

  -- A cache works. Let a GET that may be cached go to the next handler, and be answered with a status
  -- 2xx. Then the same GET, made again within the time to live, with no other request between, is
  -- answered from the cache with the same status and the same body, and does not go to the next
  -- handler. The parts of the cache agree.
  pub cache_middleware_hit :
      (mc : MemoryCache) (r : HttpRequest) (pii : Bool) (now later again after : ℕ)
      → IsConsistent mc
      → IsCacheableGet r pii
      → (cache_middleware out mc tiers cfg r pii now later).forwarded ≡ true
      → is_success (out.next [] r).status_code ≡ true
      → again ≤ later + ttl_of out r (classify_tier tiers r.method r.path pii) cfg later
      → let first = cache_middleware out mc tiers cfg r pii now later in
        let second = cache_middleware out first.cache tiers cfg r pii again after in
        (second.forwarded ≡ false)
        × (second.reply.status_code ≡ first.reply.status_code)
        × (second.reply.body ≡ first.reply.body)
  unfolding serve_key record_and_cache serve_cached_response miss_reply
  cache_middleware_hit mc r pii now later again after w c missed fine alive =
      let tier = classify_tier tiers r.method r.path pii in
      let key = get_key out r in
      let as_lookup = cacheable_get mc r pii now later c in
      elim (Option-cases (get mc key now).1) [
        | inr (cached, e) ↦
            let kept : (cache_middleware out mc tiers cfg r pii now later).forwarded ≡ false =
              rw (as_lookup, e, serve_key) refl in
            cc
        | inl e ↦
            let looked = (get mc key now).0 in
            let resp = recorded out r tier cfg later in
            let ttl = ttl_of out r tier cfg later in
            let first : cache_middleware out mc tiers cfg r pii now later ≡ record {
              cache = set looked key resp ttl later;
              forwarded = true;
              reply = miss_reply (out.next [] r);
            } =
              as_lookup ∙ simp (e, fine, serve_key, record_and_cache) refl in
            let found : (get (set looked key resp ttl later) key again).1 ≡ some resp =
              get-set looked key resp ttl later again (get-IsConsistent mc key now w) alive in
            rw first (
              rw (cacheable_get (set looked key resp ttl later) r pii again after c)
                (simp (found, serve_key) (refl, refl, refl)))
      ]
