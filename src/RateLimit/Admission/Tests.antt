-- ===== src/RateLimit/Admission/Tests.antt =====
-- Runs of internal/ratelimit/middleware.go, and the theorems at concrete inputs.
use smart_proxy.RateLimit.Defaults.{lookup_defaults}
use smart_proxy.Base.{◌*◌, ◌≡◌, refl, ◌⊎◌, true, false, none, some, [], ◌∷◌, text_beq}
use smart_proxy.Base.Text.{Text, text, has_prefix}
use smart_proxy.Base.Dict.{lookup}
use smart_proxy.RateLimit.Bucket.{
  TokenBucket, try_consume, one_token, one_rate, effective_rate, new_token_bucket,
}
use smart_proxy.RateLimit.Limiter.{Limiter, new_limiter, get_bucket}
use smart_proxy.RateLimit.Throttle.{parse_throttle_mode, RateLimitConfig, operator_mode}
use smart_proxy.RateLimit.Admission.{HttpRequest, Format, released, failed, rate_limit_middleware}
use smart_proxy.RateLimit.Admission.Granted.{AppGranted, Granted, rate_limit_middleware_granted}
use smart_proxy.RateLimit.Admission.Rejects.{rate_limit_middleware_reject}
use smart_proxy.Endpoint.Classify.{classify}

-- One request a second with bursts of two, unthrottled and empty at time 0.
abbrev empty : TokenBucket
empty = record {
  tokens = 0;
  max_tokens = 2 * one_token;
  refill_rate = one_rate;
  last_refill = 0;
  throttle = one_rate;
}

abbrev format : Format
format = record { seconds = λ d. text "s"; millis = λ d. text "ms"; tokens = λ n. text "n" }

abbrev config : RateLimitConfig
config = record {
  enabled = true;
  default_mode = text "queue";
  queue_timeout = [];
  queue_max_depth = 10;
  throttle_factor = one_rate;
  bucket_ttl = [];
  merchant_modes = [];
  endpoint_modes = (text "/orders/v0/orders", text "reject") ∷ [];
}

abbrev list_orders : HttpRequest
list_orders = record {
  method = text "GET";
  path = text "/orders/v0/orders";
  merchant_key = text "m";
  throttle_mode = text "queue";
}

abbrev limiter : Limiter
limiter = new_limiter one_rate

abbrev orders : Text
orders = text "/orders/v0/orders"

rate_limit_middleware_granted_example :
    (true ≡ false)
    ⊎ ((get_bucket limiter (text "m") (text "GET") (classify orders) 9).1 ≡ none)
    ⊎ ((bucket : TokenBucket) × ((get_bucket limiter (text "m") (text "GET") (classify orders) 9).1
          ≡ some bucket)
        × AppGranted
            (get_bucket limiter (text "m") (text "GET") (classify orders) 9).0
            list_orders
            9
            []
        × Granted bucket 9 (released 9))
rate_limit_middleware_granted_example =
    rate_limit_middleware_granted format limiter config list_orders 9 [] 9 (released 9) (
      unfold rate_limit_middleware classify lookup new_limiter lookup_defaults text_beq has_prefix
        try_consume new_token_bucket effective_rate in
      refl)

rate_limit_middleware_reject_example :
    rate_limit_middleware format limiter config list_orders 9 [] 9 (released 9)
    ≡ rate_limit_middleware format limiter config list_orders 9 [] 9 (failed true 12)
rate_limit_middleware_reject_example =
    rate_limit_middleware_reject format limiter config list_orders 9 9 [] [] (released 9)
      (failed true 12)
      (unfold operator_mode classify lookup text_beq has_prefix parse_throttle_mode in refl)
