-- ===== src/RateLimit/Tests.antt =====
-- Runs of internal/ratelimit, and the theorems at concrete inputs.
use smart_proxy.RateLimit.Limiter.{get_bucket, gc, new_limiter, load_or_store, get_bucket-gc}
use smart_proxy.RateLimit.Defaults.{BucketParams, lookup_defaults}
use smart_proxy.RateLimit.FeedLimit.{
  in_window, submit_all, new_feed_limiter_with_window, submit_all_window, allow_key,
}
use smart_proxy.RateLimit.Bucket.{
  TokenBucket, consume_all, new_token_bucket, try_consume, one_rate, one_token, effective_rate,
  consume_all_bound,
}
use smart_proxy.Base.{
  ℕ, ◌+◌, ◌-◌, ◌*◌, ◌≤◌, ◌≡◌, refl, true, false, Option, none, some, [], ◌∷◌, arith, if◌then◌else◌,
  nat_eq, text_eq, text_beq, length, keep, ◌^◌,
}
use smart_proxy.Base.Text.{Text, text}
use smart_proxy.Base.Dict.{lookup, insert, erase}
use smart_proxy.RateLimit.Throttle.{
  reject, queue_timeout, resolve_timeout, parse_throttle_mode, operator_mode, RateLimitConfig,
  queue_limit,
}

-- One request a second with bursts of two, unthrottled, created full at time 0.
abbrev bucket : TokenBucket
bucket = record {
  tokens = 2 * one_token;
  max_tokens = 2 * one_token;
  refill_rate = one_rate;
  last_refill = 0;
  throttle = one_rate;
}

made : new_token_bucket one_rate (2 * one_token) one_rate 0 ≡ bucket
unfolding new_token_bucket
made = refl

drained : TokenBucket
unfolding try_consume effective_rate
drained = (try_consume (try_consume bucket 0).0 0).0

burst_then_denied :
    ((try_consume bucket 0).1 ≡ true)
    × (drained.tokens ≡ 0)
    × ((try_consume drained 400_000_000).1 ≡ false)
    × ((try_consume drained 400_000_000).2
        ≡ record { deficit = 600_000_000 * one_rate ^ 2; rate = one_rate ^ 2 })
unfolding drained try_consume effective_rate
burst_then_denied = (refl, refl, refl, refl)

consume_all_bound_example :
    (consume_all bucket (0 ∷ 0 ∷ 0 ∷ 500_000_000 ∷ [])).1 * one_token
    ≤ bucket.tokens + (500_000_000 - 0) * effective_rate bucket
consume_all_bound_example = consume_all_bound bucket (0 ∷ 0 ∷ 0 ∷ 500_000_000 ∷ []) (omega arith)

submit_all_window_example :
    length (
      keep
        (in_window 300 260)
        (submit_all
          (new_feed_limiter_with_window 300)
          (text "m:EU")
          []
          (1 ∷ 2 ∷ 3 ∷ 4 ∷ 5 ∷ 6 ∷ 250 ∷ [])).1)
    ≤ 5
submit_all_window_example =
    submit_all_window 300 260 0 (text "m:EU") (1 ∷ 2 ∷ 3 ∷ 4 ∷ 5 ∷ 6 ∷ 250 ∷ []) (omega arith)
      (omega arith)

-- The sixth submission is denied, and so is the seventh.
granted_times :
    (submit_all
      (new_feed_limiter_with_window 300)
      (text "m:EU")
      []
      (1 ∷ 2 ∷ 3 ∷ 4 ∷ 5 ∷ 6 ∷ 250 ∷ 302 ∷ [])).1
    ≡ 1 ∷ 2 ∷ 3 ∷ 4 ∷ 5 ∷ 302 ∷ []
unfolding submit_all new_feed_limiter_with_window allow_key lookup insert erase keep text_beq
granted_times = refl

abbrev config : RateLimitConfig
config = record {
  enabled = true;
  default_mode = text "queue-timeout";
  queue_timeout = text "2s";
  queue_max_depth = 100;
  throttle_factor = 800_000_000;
  bucket_ttl = text "2h";
  merchant_modes = (text "m1", text "queue") ∷ (text "m2", text "reject") ∷ [];
  endpoint_modes = (text "/orders/v0/orders", text "Queue-Timeout:5s") ∷ [];
}

-- time.ParseDuration at the inputs of these tests, in nanoseconds
abbrev durations : Text → Option ℕ
durations s =
    if text_beq s (text "2s")
    then some 2_000_000_000
    else if text_beq s (text "500ms")
    then some 500_000_000
    else if text_beq s (text "9000ms")
    then some 9_000_000_000
    else none

timeouts :
    (resolve_timeout durations (text "queue-timeout:500") config ≡ 500_000_000)
    × (resolve_timeout durations (text "queue-timeout:9000") config ≡ 2_000_000_000)
    × (resolve_timeout durations (text "queue-timeout:x") config ≡ 2_000_000_000)
unfolding resolve_timeout queue_limit text_beq
timeouts = (refl, refl, refl)

modes :
    (operator_mode config (text "m2") (text "/feeds") ≡ reject)
    × (operator_mode config (text "m1") (text "/feeds") ≡ queue_timeout)
    × (operator_mode config (text "m2") (text "/orders/v0/orders") ≡ queue_timeout)
unfolding operator_mode parse_throttle_mode lookup
modes = (refl, refl, refl)

abbrev orders : Text
orders = text "/orders/v0/orders"

abbrev orders_bucket : TokenBucket
orders_bucket = new_token_bucket 16_700_000 (20 * one_token) 800_000_000 10

-- The first call makes the bucket of the published rate.
orders_made :
    (get_bucket (new_limiter 800_000_000) (text "m") (text "GET") orders 10).1 ≡ some orders_bucket
unfolding get_bucket new_limiter load_or_store lookup_defaults lookup text_beq
orders_made = refl

get_bucket-gc_example :
    (get_bucket
      (gc (get_bucket (new_limiter 800_000_000) (text "m") (text "GET") orders 10).0 100 90)
      (text "m")
      (text "GET")
      orders
      95).1
    ≡ some orders_bucket
get_bucket-gc_example =
    get_bucket-gc (new_limiter 800_000_000) (text "m") (text "GET") orders 100 10 90 95
      orders_bucket orders_made (omega arith)

abbrev orders_params : BucketParams
orders_params = record { rate = 16_700_000; burst = 20 }
