-- ===== src/RateLimit/Admission/Rejects.antt =====
-- internal/ratelimit/middleware.go: no request waits that the operator wants rejected.
use smart_proxy.Base.{ℕ, ◌≡◌, refl, inl, inr, List, Bool-cases, Option-cases}
use smart_proxy.Base.Text.{Text}
use smart_proxy.Endpoint.Classify.{classify}
use smart_proxy.RateLimit.Bucket.{TokenBucket, try_consume}
use smart_proxy.RateLimit.Limiter.{Limiter, get_bucket, get_app_bucket}
use smart_proxy.RateLimit.Throttle.{RateLimitConfig, reject, operator_mode, resolve_reject}
use smart_proxy.RateLimit.Admission.{
  HttpRequest, Format, Wake, QueueWait, wait_for_app_bucket, serve_throttled, serve_merchant,
  rate_limit_middleware,
}

module _ (fmt : Format) where
  app_reject :
      (l : Limiter) (method endpoint : Text) (now : ℕ) (rounds rounds' : List (ℕ × Wake))
      → wait_for_app_bucket fmt l method endpoint reject now rounds
        ≡ wait_for_app_bucket fmt l method endpoint reject now rounds'
  unfolding wait_for_app_bucket
  app_reject l method endpoint now rounds rounds' =
      elim (Option-cases (get_app_bucket l method endpoint now).1) [
        | inl e ↦ simp (e, wait_for_app_bucket) refl
        | inr (b, e) ↦ elim (Bool-cases (try_consume b now).1) [
          | inl taken ↦ simp (e, taken, wait_for_app_bucket) refl
          | inr denied ↦ simp (e, denied, wait_for_app_bucket) refl
        ]
      ]

  merchant_reject :
      (l : Limiter) (key : Text) (bucket : TokenBucket) (turn : ℕ) (queued queued' : QueueWait)
      → serve_merchant fmt l key reject bucket turn queued
        ≡ serve_merchant fmt l key reject bucket turn queued'
  unfolding serve_merchant serve_throttled
  merchant_reject l key bucket turn queued queued' = refl

  -- Where the operator's choice is to reject, no request waits: what becomes of it does not depend on
  -- how any wait would end, whatever its header asks for.
  pub rate_limit_middleware_reject :
      (l : Limiter) (cfg : RateLimitConfig) (r : HttpRequest) (now turn : ℕ)
      (rounds rounds' : List (ℕ × Wake)) (queued queued' : QueueWait)
      → operator_mode cfg r.merchant_key (classify r.path) ≡ reject
      → rate_limit_middleware fmt l cfg r now rounds turn queued
        ≡ rate_limit_middleware fmt l cfg r now rounds' turn queued'
  unfolding rate_limit_middleware
  rate_limit_middleware_reject l cfg r now turn rounds rounds' queued queued' h =
      let endpoint = classify r.path in
      let mode = resolve_reject r.throttle_mode r.merchant_key endpoint cfg h in
      elim (Bool-cases cfg.enabled) [
        | inr off ↦ simp (off, rate_limit_middleware) refl
        | inl on ↦ elim (Option-cases (get_bucket l r.merchant_key r.method endpoint now).1) [
          | inl unknown ↦ simp (on, unknown, rate_limit_middleware) refl
          | inr (bucket, known) ↦
              let l' = (get_bucket l r.merchant_key r.method endpoint now).0 in
              let same = app_reject l' r.method endpoint now rounds rounds' in
              elim (Option-cases
                (wait_for_app_bucket fmt l' r.method endpoint reject now rounds').1) [
                  | inl passed ↦
                      simp (on, known, mode, same, passed, rate_limit_middleware)
                        (merchant_reject _ _ bucket turn queued queued')
                  | inr (served, stopped) ↦
                      simp (on, known, mode, same, stopped, rate_limit_middleware) refl
                ]
        ]
      ]
