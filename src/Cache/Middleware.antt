-- ===== src/Cache/Middleware.antt =====
-- internal/cache/middleware.go: the handler, and the conditions under which a request goes past the
-- cache. `pii` is the answer of the classifier's checker of personal data for the request.
pub mod Own
pub mod Single
pub mod Batched
pub mod Owned
pub mod Laws
use smart_proxy.Base.{
  ℕ, Bool, true, false, not, ◌&&◌, Option, none, some, List, [], if◌then◌else◌, ◌==◌, nat_eq,
  text_eq,
}
use smart_proxy.Base.Text.{Text, text}
use smart_proxy.Cache.Http.{HttpRequest, CacheConfig, Served, Outside, set_header}
use smart_proxy.Cache.Memory.{MemoryCache}
use smart_proxy.Cache.Invalidation.{invalidate_on_mutation}
use smart_proxy.Cache.Tiers.{TierConfig, TierPattern, CacheTier, cache_tier_never, classify_tier}
use smart_proxy.Cache.Keys.{generate_cache_key, sanitize_cache_key_suffix}
use smart_proxy.Cache.Serve.{pass, serve_key, cache_header}
use smart_proxy.Cache.Post.{handle_post_cache}
use smart_proxy.Cache.Batch.{lookup_batch_config}
use smart_proxy.Cache.Batch.Elements.{handle_batch_cache}

abbrev pub is_never : CacheTier → Bool
is_never cache_tier_never = true
is_never _ = false

module _ (out : Outside) where
  -- `none` is the code's false: the caller goes on
  unfoldable pub handle_cache_preconditions :
      MemoryCache → HttpRequest → TierConfig → CacheConfig → Option Served
  unfolding pass invalidate_on_mutation set_header
  handle_cache_preconditions mc r tier cfg =
      if is_never tier.tier && not tier.pii_excluded
      then some (
          pass out
            (if r.method == text "GET"
              then mc
              else invalidate_on_mutation mc r.merchant_key r.method r.path)
            [] r)
      else if cfg.exclude_pii && tier.pii_excluded
      then some (pass out mc (set_header [] cache_header (text "PII_EXCLUDED")) r)
      else if r.no_cache == text "true"
      then some (pass out mc (set_header [] cache_header (text "BYPASS")) r)
      else none

  abbrev pub get_key : HttpRequest → Text
  get_key r =
      generate_cache_key out.parse_query r.merchant_key r.method r.path r.raw_query
        (sanitize_cache_key_suffix r.cache_key)

  -- the rest of the handler, where no precondition holds
  unfoldable pub serve_cacheable :
      MemoryCache → HttpRequest → TierConfig → CacheConfig → ℕ → ℕ → Served
  unfolding serve_key handle_post_cache handle_batch_cache lookup_batch_config
  serve_cacheable mc r tier cfg now later =
      let single =
        if r.method == text "POST" && tier.post_cacheable
        then handle_post_cache out mc r tier cfg now later
        else serve_key out mc (get_key r) r tier cfg now later in
      if r.method == text "POST" && tier.batch_cacheable
      then elim (lookup_batch_config r.path) [
        | some bcfg ↦ handle_batch_cache out mc r bcfg tier cfg now later
        | none ↦ single
      ]
      else single

  unfoldable pub cache_middleware :
      MemoryCache → List TierPattern → CacheConfig → HttpRequest → Bool → ℕ → ℕ → Served
  unfolding pass handle_cache_preconditions serve_cacheable classify_tier
  cache_middleware mc tiers cfg r pii now later =
      let tier = classify_tier tiers r.method r.path pii in
      if not cfg.enabled
      then pass out mc [] r
      else elim (handle_cache_preconditions mc r tier cfg) [
        | some served ↦ served
        | none ↦ serve_cacheable mc r tier cfg now later
      ]
