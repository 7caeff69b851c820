-- ===== src/RateLimit/Admission.antt =====
-- internal/ratelimit/middleware.go: who goes upstream, who waits, and who is turned away. What a wait ends
-- with is up to the clock, the queue and the client, so it is an argument: the rounds of the wait for
-- the application's bucket, and the result of the wait in the queue (Queue has the queue itself). The
-- headers of the request that the code reads are fields, an absent one empty. `Format` stands for the
-- formats of fmt: `seconds` for `%.1f` of the duration that a wait comes to, `tokens` for `%.2f` of a count of tokens, and
-- `millis` for a duration in milliseconds. Bodies of error replies are left out.
mod Granted
mod Ends
mod Rejects
mod Tests
use smart_proxy.Base.{
  ℕ, ◌-◌, Bool, true, false, not, Option, none, some, List, [], ◌∷◌, ◌++◌, if◌then◌else◌, ◌==◌,
  nat_eq, text_eq,
}
use smart_proxy.Base.Text.{Text, text}
use smart_proxy.Base.Dict.{Dict, lookup, insert}
use smart_proxy.Endpoint.Classify.{classify}
use smart_proxy.RateLimit.Bucket.{TokenBucket, try_consume, read_tokens, Wait}
use smart_proxy.RateLimit.Limiter.{Limiter, BucketEntry, get_bucket, get_app_bucket, bucket_key}
use smart_proxy.RateLimit.Throttle.{
  RateLimitConfig, ThrottleMode, queue, reject, queue_timeout, resolve_throttle_mode, is_reject,
}

pub record HttpRequest : Type 0 where
  pub method : Text
  pub path : Text
  pub merchant_key : Text
  pub throttle_mode : Text

pub record Format : Type 0 where
  pub seconds : Wait → Text
  pub millis : ℕ → Text
  pub tokens : ℕ → Text

-- The limiter after a request, whether it went upstream, the status that the middleware wrote (0 where
-- it wrote none), and the headers that it set.
pub record Served : Type 0 where
  pub limiter : Limiter
  pub forwarded : Bool
  pub status : ℕ
  pub headers : Dict Text Text

-- what ends a pause between two looks at the application's bucket
pub data Wake : Type 0 where
  timer : Wake
  ctx_done : Bool → Wake

-- How the wait for the application's bucket ends. `gave_up` has whether the client is gone, the wait
-- that the bucket named last, and when; `waiting` is a wait that goes on after the given rounds.
pub data AppWait : Type 0 where
  admitted : AppWait
  gave_up : Bool → Wait → ℕ → AppWait
  waiting : AppWait

-- the result of EnqueueAndWait, and when; `failed` has whether the client is gone
pub data QueueWait : Type 0 where
  released : ℕ → QueueWait
  failed : Bool → ℕ → QueueWait

-- the loop of waitForAppBucket; a round is the time of a look and what ends the pause after it
unfoldable pub wait_rounds : TokenBucket → List (ℕ × Wake) → TokenBucket × AppWait
wait_rounds b [] = (b, waiting)
wait_rounds b ((now, wake) ∷ rounds) =
    let (b', allowed, wait) = try_consume b now in
    let rest = wait_rounds b' rounds in
    if allowed
    then (b', admitted)
    else elim wake [ ctx_done gone ↦ (b', gave_up gone wait now) | timer ↦ rest ]

-- a write through the shared pointer to a bucket
unfoldable pub store_bucket : Dict Text BucketEntry → Text → TokenBucket → Dict Text BucketEntry
store_bucket d key b = elim (lookup key d) [
  | none ↦ d
  | some entry ↦ insert key (record entry { bucket = b }) d
]

abbrev app_key : Text → Text → Text
app_key method endpoint = method ++ b':' ∷ endpoint

abbrev header_queued : Text
header_queued = text "X-SP-Proxy-Queued"

abbrev header_wait : Text
header_wait = text "X-SP-Proxy-Queue-Wait-Ms"

abbrev header_reason : Text
header_reason = text "X-SP-Proxy-Error-Reason"

abbrev header_remaining : Text
header_remaining = text "X-SP-Proxy-Rate-Limit-Remaining"

abbrev retry_after : Text
retry_after = text "Retry-After"

module _ (fmt : Format) where
  abbrev gone_headers : ℕ → Dict Text Text
  gone_headers waited =
      (header_reason, text "client_disconnected_in_queue")
      ∷ (header_wait, fmt.millis waited)
      ∷ (header_queued, text "true")
      ∷ []

  abbrev turned_away : Limiter → ℕ → Dict Text Text → Served
  turned_away l status headers = record {
    limiter = l;
    forwarded = false;
    status = status;
    headers = headers;
  }

  -- the reply where the wait for the application's bucket ends without a token
  unfoldable pub finish_wait : Limiter → AppWait → ℕ → Option Served
  finish_wait l admitted start = none
  finish_wait l waiting start = some (turned_away l 0 [])
  finish_wait l (gave_up true wait at) start = some (turned_away l 499 (gone_headers (at - start)))
  finish_wait l (gave_up false wait at) start = some (
      turned_away l 429 (
        (retry_after, fmt.seconds wait)
        ∷ (header_wait, fmt.millis (at - start))
        ∷ (header_queued, text "true")
        ∷ []))

  -- `none` is the code's true: the caller goes on
  unfoldable pub wait_for_app_bucket :
      Limiter → Text → Text → ThrottleMode → ℕ → List (ℕ × Wake) → Limiter × Option Served
  unfolding get_app_bucket wait_rounds store_bucket finish_wait
  wait_for_app_bucket l method endpoint mode now rounds =
      let key = app_key method endpoint in
      let (l', found) = get_app_bucket l method endpoint now in
      let stored =
        λ (b : TokenBucket). record l' { app_buckets = store_bucket l'.app_buckets key b } in
      elim found [
        | none ↦ (l', none)
        | some bucket ↦
            let (b, allowed, wait) = try_consume bucket now in
            let (b', ending) = wait_rounds b rounds in
            let failed_fast = turned_away (stored b) 429 ((retry_after, fmt.seconds wait) ∷ []) in
            if allowed
            then (stored b, none)
            else if is_reject mode
            then (stored b, some failed_fast)
            else (stored b', finish_wait (stored b') ending now)
      ]

  abbrev go_on : Limiter → Dict Text Text → Served
  go_on l headers = record { limiter = l; forwarded = true; status = 0; headers = headers }

  -- `retry` is empty in plain queue mode
  unfoldable pub serve_queued : Limiter → Text → TokenBucket → ℕ → Text → QueueWait → Served
  unfolding store_bucket read_tokens
  serve_queued l key bucket now retry (released at) =
      let (b, left) = read_tokens bucket at in
      go_on (record l { buckets = store_bucket l.buckets key b })
        ((header_remaining, fmt.tokens left)
          ∷ (header_wait, fmt.millis (at - now))
          ∷ (header_queued, text "true")
          ∷ [])
  serve_queued l key bucket now retry (failed gone at) =
      let waited = (header_wait, fmt.millis (at - now)) ∷ (header_queued, text "true") ∷ [] in
      if gone
      then turned_away l 499 (gone_headers (at - now))
      else turned_away l 429 (if retry == [] then waited else (retry_after, retry) ∷ waited)

  unfoldable pub serve_throttled :
      Limiter → Text → ThrottleMode → TokenBucket → Wait → ℕ → QueueWait → Served
  unfolding serve_queued
  serve_throttled l key mode bucket wait now queued = elim mode [
    | reject ↦ turned_away l 429 ((retry_after, fmt.seconds wait) ∷ [])
    | queue ↦ serve_queued l key bucket now [] queued
    | queue_timeout ↦ serve_queued l key bucket now (fmt.seconds wait) queued
  ]

  -- The request's turn at the merchant's bucket. What other requests do in between is not modelled.
  unfoldable pub serve_merchant :
      Limiter → Text → ThrottleMode → TokenBucket → ℕ → QueueWait → Served
  unfolding store_bucket read_tokens serve_throttled
  serve_merchant l key mode bucket now queued =
      let (b, allowed, wait) = try_consume bucket now in
      let stored = record l { buckets = store_bucket l.buckets key b } in
      if allowed
      then go_on stored (
          (header_remaining, fmt.tokens (read_tokens b now).1) ∷ (header_queued, text "false") ∷ [])
      else serve_throttled stored key mode b wait now queued

  unfoldable pub rate_limit_middleware :
      Limiter → RateLimitConfig → HttpRequest → ℕ → List (ℕ × Wake) → ℕ → QueueWait → Served
  unfolding get_bucket wait_for_app_bucket serve_merchant
  rate_limit_middleware l cfg r now rounds turn queued =
      let endpoint = classify r.path in
      let key = bucket_key r.merchant_key r.method endpoint in
      let mode = resolve_throttle_mode r.throttle_mode r.merchant_key endpoint cfg in
      let (l', found) = get_bucket l r.merchant_key r.method endpoint now in
      if not cfg.enabled then go_on l [] else elim found [
        | none ↦ go_on l' ((text "X-SP-Proxy-Rate-Limit-Active", text "false") ∷ [])
        | some bucket ↦
            let (l'', stopped) = wait_for_app_bucket l' r.method endpoint mode now rounds in
            elim stopped [
              | some served ↦ served
              | none ↦ serve_merchant l'' key mode bucket turn queued
            ]
      ]
