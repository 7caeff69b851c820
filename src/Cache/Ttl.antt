-- ===== src/Cache/Ttl.antt =====
-- `resolveTTL` of internal/cache/middleware.go. `parse_duration` and `parse_time` stand for
-- time.ParseDuration and time.Parse: `none` is an error, and a duration that is not positive reads as 0,
-- since every use of it tests for a positive one. Absent headers are empty.
use smart_proxy.Base.{
  ℕ, ◌-◌, ◌≤◌, ◌<◌, ◌≡◌, ◌⊎◌, Option, none, some, [], arith, ltb, if◌then◌else◌, ◌==◌, nat_eq,
  text_eq,
}
use smart_proxy.Base.Text.{Text}
use smart_proxy.Cache.Tiers.{TierConfig}

module _ (parse_duration : Text → Option ℕ) (parse_time : Text → Option ℕ) where
  -- the 24 hours of the code are nanoseconds
  unfoldable pub max_ttl : Text → ℕ
  max_ttl max_client_ttl =
      if max_client_ttl == [] then 86_400_000_000_000 else elim (parse_duration max_client_ttl) [
        | none ↦ 86_400_000_000_000
        | some d ↦ if ltb 0 d then d else 86_400_000_000_000
      ]

  unfoldable pub clamp : ℕ → ℕ → ℕ
  clamp limit d = if ltb limit d then limit else d

  -- the client's second choice, and the tier's default
  unfoldable pub relative_ttl : Text → TierConfig → ℕ → ℕ
  unfolding clamp
  relative_ttl ttl_str tier limit =
      if ttl_str == [] then tier.default_ttl else elim (parse_duration ttl_str) [
        | none ↦ tier.default_ttl
        | some d ↦ if ltb 0 d then clamp limit d else tier.default_ttl
      ]

  unfoldable pub resolve_ttl : Text → Text → TierConfig → Text → ℕ → ℕ
  unfolding max_ttl relative_ttl clamp
  resolve_ttl until_time ttl_str tier max_client_ttl now =
      let limit = max_ttl max_client_ttl in
      if until_time == [] then relative_ttl ttl_str tier limit else elim (parse_time until_time) [
        | none ↦ relative_ttl ttl_str tier limit
        | some t ↦
            if ltb 0 (t - now) then clamp limit (t - now) else relative_ttl ttl_str tier limit
      ]

  relative_ttl-le :
      (ttl_str : Text) (tier : TierConfig) (limit : ℕ)
      → 0 < limit
      → (relative_ttl ttl_str tier limit ≡ tier.default_ttl)
        ⊎ ((0 < relative_ttl ttl_str tier limit) × (relative_ttl ttl_str tier limit ≤ limit))
  unfolding relative_ttl clamp
  relative_ttl-le ttl_str tier limit h = ground arith

  max_ttl_pos : (max_client_ttl : Text) → 0 < max_ttl max_client_ttl
  unfolding max_ttl
  max_ttl_pos max_client_ttl = ground arith

  -- No client keeps an answer in the cache beyond the operator's limit: the time to live is the tier's
  -- default, or positive and at most the configured maximum (24 hours without one).
  pub resolve_ttl-le_max :
      (until_time ttl_str : Text) (tier : TierConfig) (max_client_ttl : Text) (now : ℕ)
      → (resolve_ttl until_time ttl_str tier max_client_ttl now ≡ tier.default_ttl)
        ⊎ ((0 < resolve_ttl until_time ttl_str tier max_client_ttl now)
            × (resolve_ttl until_time ttl_str tier max_client_ttl now ≤ max_ttl max_client_ttl))
  unfolding resolve_ttl
  resolve_ttl-le_max until_time ttl_str tier max_client_ttl now =
      ground
        (arith, relative_ttl-le ttl_str tier (max_ttl max_client_ttl), max_ttl_pos max_client_ttl)
