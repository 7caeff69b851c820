-- ===== src/Cache/Middleware/Owned.antt =====
-- internal/cache/middleware.go and postcache.go: no request touches the cache under other keys than those
-- of its merchant.
use smart_proxy.Cache.Middleware.Single.{Mine, if_rule, invalidate_on_mutation-Own, serve_key-Own}
use smart_proxy.Cache.Middleware.Batched.{handle_batch_cache-Own}
use smart_proxy.Base.{
  ℕ, ◌≡◌, sym, subst, inl, inr, Bool, not, ◌&&◌, some, List, arith, if◌then◌else◌, ◌==◌, nat_eq,
  text_eq, Bool-cases, Option-cases,
}
use smart_proxy.Base.Text.{text}
use smart_proxy.Cache.Http.{HttpRequest, CacheConfig, Served, Outside}
use smart_proxy.Cache.Memory.{MemoryCache}
use smart_proxy.Cache.Invalidation.{invalidate_on_mutation}
use smart_proxy.Cache.Tiers.{TierConfig, TierPattern, classify_tier}
use smart_proxy.Cache.Keys.{generate_cache_key}
use smart_proxy.Cache.Serve.{pass, serve_key}
use smart_proxy.Cache.Post.{handle_post_cache, generate_post_cache_key}
use smart_proxy.Cache.Batch.{lookup_batch_config}
use smart_proxy.Cache.Middleware.{
  get_key, cache_middleware, serve_cacheable, handle_cache_preconditions, is_never,
}
use smart_proxy.Cache.Middleware.Own.{untouched}

module _ (out : Outside) (r : HttpRequest) (later : ℕ) (mc : MemoryCache) where
  handle_post_cache-Own :
      (tier : TierConfig) (cfg : CacheConfig) (now : ℕ)
      → Mine out r later mc (handle_post_cache out mc r tier cfg now later).cache
  unfolding handle_post_cache generate_post_cache_key pass
  handle_post_cache-Own tier cfg now = elim (Option-cases r.body) [
    | inl e ↦ simp (e, handle_post_cache) untouched
    | inr (body, e) ↦ simp (e, handle_post_cache) (serve_key-Own out r later mc _ tier cfg now)
  ]

  serve_cacheable-Own :
      (tier : TierConfig) (cfg : CacheConfig) (now : ℕ)
      → Mine out r later mc (serve_cacheable out mc r tier cfg now later).cache
  unfolding serve_cacheable generate_cache_key
  serve_cacheable-Own tier cfg now =
      let looked_up : Mine out r later mc
          (serve_key out mc (get_key out r) r tier cfg now later).cache =
        serve_key-Own out r later mc _ tier cfg now in
      let single : Mine out r later mc
          (if r.method == text "POST" && tier.post_cacheable
            then handle_post_cache out mc r tier cfg now later
            else serve_key out mc (get_key out r) r tier cfg now later).cache =
        if_rule (λ (s : Served). Mine out r later mc s.cache)
          (r.method == text "POST" && tier.post_cacheable) (handle_post_cache-Own tier cfg now)
          looked_up in
      elim (Bool-cases (r.method == text "POST" && tier.batch_cacheable)) [
        | inr e ↦ simp (e, serve_cacheable) single
        | inl e ↦ elim (Option-cases (lookup_batch_config r.path)) [
          | inl f ↦ simp (e, serve_cacheable, f) single
          | inr (bcfg, f) ↦
              simp (e, serve_cacheable, f)
                (handle_batch_cache-Own out r later mc bcfg tier cfg now f)
        ]
      ]

  handle_cache_preconditions-Own :
      (tier : TierConfig) (cfg : CacheConfig) (served : Served)
      → handle_cache_preconditions out mc r tier cfg ≡ some served
      → Mine out r later mc served.cache
  unfolding handle_cache_preconditions pass
  handle_cache_preconditions-Own tier cfg served h =
      let written = invalidate_on_mutation-Own out r later mc in
      elim (Bool-cases (is_never tier.tier && not tier.pii_excluded)) [
        | inl e ↦
            let kept : MemoryCache =
              if r.method == text "GET"
              then mc
              else invalidate_on_mutation mc r.merchant_key r.method r.path in
            let same : served.cache ≡ kept = ground arith in
            subst (Mine out r later mc) (sym same)
              (if_rule (Mine out r later mc) (r.method == text "GET") untouched written)
        | inr e ↦
            let same : served.cache ≡ mc = ground arith in
            subst (Mine out r later mc) (sym same) untouched
      ]

  -- every request
  pub cache_middleware-Own :
      (tiers : List TierPattern) (cfg : CacheConfig) (pii : Bool) (now : ℕ)
      → Mine out r later mc (cache_middleware out mc tiers cfg r pii now later).cache
  unfolding cache_middleware pass
  cache_middleware-Own tiers cfg pii now =
      let tier = classify_tier tiers r.method r.path pii in
      elim (Bool-cases cfg.enabled) [
        | inr e ↦ simp (e, cache_middleware) untouched
        | inl e ↦ elim (Option-cases (handle_cache_preconditions out mc r tier cfg)) [
          | inl f ↦ simp (e, cache_middleware, f) (serve_cacheable-Own tier cfg now)
          | inr (served, f) ↦
              simp (e, cache_middleware, f) (handle_cache_preconditions-Own tier cfg served f)
        ]
      ]
