-- ===== src/RateLimit/Admission/Granted.antt =====
-- internal/ratelimit/middleware.go: no request goes upstream past the limits.
use smart_proxy.Base.{
  ℕ, ◌≡◌, refl, ◌⊎◌, inl, inr, Bool, true, false, none, some, List, arith, Bool-cases, Option-cases,
}
use smart_proxy.Base.Text.{Text}
use smart_proxy.Endpoint.Classify.{classify}
use smart_proxy.RateLimit.Bucket.{TokenBucket, Wait, try_consume}
use smart_proxy.RateLimit.Limiter.{Limiter, get_bucket, get_app_bucket}
use smart_proxy.RateLimit.Throttle.{
  is_reject, RateLimitConfig, ThrottleMode, queue, reject, queue_timeout, resolve_throttle_mode,
}
use smart_proxy.RateLimit.Admission.{
  finish_wait, HttpRequest, Format, Served, Wake, AppWait, admitted, gave_up, waiting, QueueWait,
  released, failed, wait_rounds, store_bucket, wait_for_app_bucket, serve_queued, serve_throttled,
  serve_merchant, rate_limit_middleware,
}

-- the application's bucket let the request pass, or there is none
abbrev pub AppGranted : Limiter → HttpRequest → ℕ → List (ℕ × Wake) → Type 0
AppGranted l r now rounds =
    ((get_app_bucket l r.method (classify r.path) now).1 ≡ none)
    ⊎ ((b : TokenBucket) × ((get_app_bucket l r.method (classify r.path) now).1 ≡ some b)
        × (((try_consume b now).1 ≡ true)
            ⊎ ((wait_rounds (try_consume b now).0 rounds).1 ≡ admitted)))

-- the merchant's bucket gave a token, at once or through the queue
abbrev pub Granted : TokenBucket → ℕ → QueueWait → Type 0
Granted bucket turn queued =
    ((try_consume bucket turn).1 ≡ true) ⊎ ((at : ℕ) × (queued ≡ released at))

module _ (fmt : Format) where
  finish_wait-none :
      (l : Limiter) (ending : AppWait) (start : ℕ)
      → finish_wait fmt l ending start ≡ none
      → ending ≡ admitted
  unfolding finish_wait
  finish_wait-none l admitted start h = refl
  finish_wait-none l waiting start h = cc
  finish_wait-none l (gave_up true wait at) start h = cc
  finish_wait-none l (gave_up false wait at) start h = cc

  finish_wait_kept :
      (l : Limiter) (ending : AppWait) (start : ℕ) (served : Served)
      → finish_wait fmt l ending start ≡ some served
      → served.forwarded ≡ false
  unfolding finish_wait
  finish_wait_kept l admitted start served h = cc
  finish_wait_kept l waiting start served h = ground arith
  finish_wait_kept l (gave_up true wait at) start served h = ground arith
  finish_wait_kept l (gave_up false wait at) start served h = ground arith

  app_granted :
      (l : Limiter) (r : HttpRequest) (mode : ThrottleMode) (now : ℕ) (rounds : List (ℕ × Wake))
      → (wait_for_app_bucket fmt l r.method (classify r.path) mode now rounds).1 ≡ none
      → AppGranted l r now rounds
  unfolding wait_for_app_bucket
  app_granted l r mode now rounds h =
      elim (Option-cases (get_app_bucket l r.method (classify r.path) now).1) [
        | inl e ↦ inl e
        | inr (b, e) ↦ elim (Bool-cases (try_consume b now).1) [
          | inl taken ↦ inr (b, e, inl taken)
          | inr denied ↦ elim (Bool-cases (is_reject mode)) [
            | inl failing ↦
                let no : some _ ≡ none = rw (e, denied, failing, wait_for_app_bucket) at h in cc
            | inr waits ↦ inr (
              b,
              e,
              inr (finish_wait-none _ _ now (rw (e, denied, waits, wait_for_app_bucket) at h)),
            )
          ]
        ]
      ]

  app_stopped :
      (l : Limiter) (r : HttpRequest) (mode : ThrottleMode) (now : ℕ) (rounds : List (ℕ × Wake))
      (served : Served)
      → (wait_for_app_bucket fmt l r.method (classify r.path) mode now rounds).1 ≡ some served
      → served.forwarded ≡ false
  unfolding wait_for_app_bucket
  app_stopped l r mode now rounds served h =
      elim (Option-cases (get_app_bucket l r.method (classify r.path) now).1) [
        | inl e ↦ let no : none ≡ some served = rw (e, wait_for_app_bucket) at h in cc
        | inr (b, e) ↦ elim (Bool-cases (try_consume b now).1) [
          | inl taken ↦ let no : none ≡ some served = rw (e, taken, wait_for_app_bucket) at h in cc
          | inr denied ↦ elim (Bool-cases (is_reject mode)) [
            | inl failing ↦
                let stopped = rw (e, denied, failing, wait_for_app_bucket) at h in
                ground (arith, stopped)
            | inr waits ↦
                finish_wait_kept _ _ now served (rw (e, denied, waits, wait_for_app_bucket) at h)
          ]
        ]
      ]

  throttled_kept :
      (l : Limiter) (key : Text) (mode : ThrottleMode) (b : TokenBucket) (wait : Wait) (now : ℕ)
      (gone : Bool) (at : ℕ)
      → (serve_throttled fmt l key mode b wait now (failed gone at)).forwarded ≡ false
  unfolding serve_throttled serve_queued
  throttled_kept l key reject b wait now gone at = refl
  throttled_kept l key queue b wait now true at = refl
  throttled_kept l key queue b wait now false at = refl
  throttled_kept l key queue_timeout b wait now true at = refl
  throttled_kept l key queue_timeout b wait now false at = refl

  granted :
      (l : Limiter) (key : Text) (mode : ThrottleMode) (bucket : TokenBucket) (turn : ℕ)
      (queued : QueueWait)
      → (serve_merchant fmt l key mode bucket turn queued).forwarded ≡ true
      → Granted bucket turn queued
  unfolding serve_merchant
  granted l key mode bucket turn (released at) h = inr (at, refl)
  granted l key mode bucket turn (failed gone at) h =
      elim (Bool-cases (try_consume bucket turn).1) [
        | inl taken ↦ inl taken
        | inr denied ↦
            let b = (try_consume bucket turn).0 in
            let stored = record l { buckets = store_bucket l.buckets key b } in
            let kept = throttled_kept stored key mode b (try_consume bucket turn).2 turn gone at in
            let same : (serve_merchant fmt l key mode bucket turn (failed gone at)).forwarded
                ≡ (serve_throttled fmt stored key mode b (try_consume bucket turn).2 turn
                    (failed gone at)).forwarded =
              simp (denied, serve_merchant) refl in
            cc
      ]

  -- No way round the limits. A request that goes upstream was exempt, since limiting is off or its
  -- endpoint has no rate, or it had a token of the application's bucket, if there is one, and a token
  -- of its merchant's bucket, each at once or after a wait.
  pub rate_limit_middleware_granted :
      (l : Limiter) (cfg : RateLimitConfig) (r : HttpRequest) (now : ℕ) (rounds : List (ℕ × Wake))
      (turn : ℕ) (queued : QueueWait)
      → (rate_limit_middleware fmt l cfg r now rounds turn queued).forwarded ≡ true
      → (cfg.enabled ≡ false)
        ⊎ ((get_bucket l r.merchant_key r.method (classify r.path) now).1 ≡ none)
        ⊎ ((bucket : TokenBucket) × ((get_bucket l r.merchant_key r.method (classify r.path) now).1
              ≡ some bucket)
            × AppGranted (get_bucket l r.merchant_key r.method (classify r.path) now).0 r now rounds
            × Granted bucket turn queued)
  unfolding rate_limit_middleware
  rate_limit_middleware_granted l cfg r now rounds turn queued h =
      let mode = resolve_throttle_mode r.throttle_mode r.merchant_key (classify r.path) cfg in
      elim (Bool-cases cfg.enabled) [
        | inr off ↦ inl off
        | inl on ↦
            elim (Option-cases (get_bucket l r.merchant_key r.method (classify r.path) now).1) [
              | inl unknown ↦ inr (inl unknown)
              | inr (bucket, known) ↦
                  let l' = (get_bucket l r.merchant_key r.method (classify r.path) now).0 in
                  elim (Option-cases
                    (wait_for_app_bucket fmt l' r.method (classify r.path) mode now rounds).1) [
                      | inr (served, stopped) ↦
                          let kept = app_stopped l' r mode now rounds served stopped in
                          let same : (rate_limit_middleware fmt l cfg r now rounds turn
                                queued).forwarded
                              ≡ served.forwarded =
                            simp (on, known, stopped, rate_limit_middleware) refl in
                          cc
                      | inl passed ↦ inr (
                          inr (
                            bucket,
                            known,
                            app_granted l' r mode now rounds passed,
                            granted _ _ mode bucket turn queued
                                (simp (on, known, passed, rate_limit_middleware) at h),
                          ))
                    ]
            ]
      ]
