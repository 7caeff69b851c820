-- ===== src/RateLimit/Throttle.antt =====
-- internal/ratelimit/middleware.go: how the operator's configuration and the advisory header
-- X-SP-Proxy-Throttle-Mode resolve to a mode and a time limit. `parse_duration` stands for
-- time.ParseDuration: `none` is an error, and a duration that is not positive reads as 0, since
-- every use of it tests for a positive one. An absent header is the empty text, as http.Header.Get
-- returns it; a nil map of overrides is the empty one.
use smart_proxy.Base.{
  ℕ, ◌≤◌, ◌<◌, ◌≡◌, ◌≢◌, Bool, true, false, not, ◌&&◌, Option, none, some, [], ◌∷◌, ◌++◌, arith,
  ltb, leb, if◌then◌else◌, ◌==◌, nat_eq, text_eq, text_beq,
}
use smart_proxy.Base.Text.{Text, text, has_prefix, to_lower}
use smart_proxy.Base.Dict.{Dict, lookup}

pub data ThrottleMode : Type 0 where
  queue reject queue_timeout : ThrottleMode

pub record RateLimitConfig : Type 0 where
  pub enabled : Bool
  pub default_mode : Text
  pub queue_timeout : Text
  pub queue_max_depth : ℕ
  pub throttle_factor : ℕ
  pub bucket_ttl : Text
  pub merchant_modes : Dict Text Text
  pub endpoint_modes : Dict Text Text

-- the empty mode is `none`
unfoldable pub parse_throttle_mode : Text → Option ThrottleMode
unfolding to_lower has_prefix text_beq
parse_throttle_mode s =
    if to_lower s == text "reject"
    then some reject
    else if to_lower s == text "queue"
    then some queue
    else if to_lower s == text "queue-timeout"
    then some queue_timeout
    else if has_prefix (to_lower s) (text "queue-timeout")
    then some queue_timeout
    else none

abbrev pub or_keep : Option ThrottleMode → ThrottleMode → ThrottleMode
or_keep none m = m
or_keep (some m') m = m'

abbrev pub override : Dict Text Text → Text → ThrottleMode → ThrottleMode
override modes k m = elim (lookup k modes) [ none ↦ m | some s ↦ or_keep (parse_throttle_mode s) m ]

abbrev pub is_queue : ThrottleMode → Bool
is_queue queue = true
is_queue reject = false
is_queue queue_timeout = false

abbrev pub is_reject : ThrottleMode → Bool
is_reject reject = true
is_reject queue = false
is_reject queue_timeout = false

-- the operator's choice, before the header is read
unfoldable pub operator_mode : RateLimitConfig → Text → Text → ThrottleMode
operator_mode cfg merchant_key endpoint =
    let m = override cfg.merchant_modes merchant_key queue in
    let n = override cfg.endpoint_modes endpoint m in
    if is_queue n then or_keep (parse_throttle_mode cfg.default_mode) n else n

unfoldable pub resolve_throttle_mode : Text → Text → Text → RateLimitConfig → ThrottleMode
resolve_throttle_mode header merchant_key endpoint cfg =
    let m = operator_mode cfg merchant_key endpoint in
    if header == [] then m else elim (parse_throttle_mode header) [
      | none ↦ m
      | some requested ↦ if is_reject m && not (is_reject requested) then reject else requested
    ]

-- strings.SplitN(header, ":", 2), where it has two parts
unfoldable pub after_colon : Text → Option Text
after_colon [] = none
after_colon (c ∷ s) = if c == b':' then some s else after_colon s

module _ (parse_duration : Text → Option ℕ) where
  unfoldable pub queue_limit : RateLimitConfig → ℕ
  queue_limit cfg = elim (parse_duration cfg.queue_timeout) [
    | none ↦ 1_000_000_000
    | some d ↦ if leb d 0 then 1_000_000_000 else d
  ]

  unfoldable pub resolve_timeout : Text → RateLimitConfig → ℕ
  unfolding after_colon
  resolve_timeout header cfg = if header == [] then queue_limit cfg else elim (after_colon header) [
    | none ↦ queue_limit cfg
    | some part ↦ elim (parse_duration (part ++ text "ms")) [
      | none ↦ queue_limit cfg
      | some d ↦
          if ltb 0 d
          then (if ltb (queue_limit cfg) d then queue_limit cfg else d)
          else queue_limit cfg
    ]
  ]

  -- The header can shorten the operator's time limit, and never lengthen it; the limit is positive.
  resolve_timeout-le_limit :
      (header : Text) (cfg : RateLimitConfig)
      → (resolve_timeout header cfg ≤ queue_limit cfg) × (0 < resolve_timeout header cfg)
  unfolding resolve_timeout queue_limit
  resolve_timeout-le_limit header cfg = ground arith

-- Where the operator's choice is to reject, every request is rejected, whatever its header says.
pub resolve_reject :
    (header merchant_key endpoint : Text) (cfg : RateLimitConfig)
    → operator_mode cfg merchant_key endpoint ≡ reject
    → resolve_throttle_mode header merchant_key endpoint cfg ≡ reject
unfolding resolve_throttle_mode
resolve_reject header merchant_key endpoint cfg h = ground arith

-- Where the operator's choice is not to reject, the header decides: an absent or unknown one leaves
-- the operator's choice, and a known one replaces it. So a request for the unbounded queue replaces
-- an operator's queue-timeout.
pub resolve_request :
    (header merchant_key endpoint : Text) (cfg : RateLimitConfig)
    → operator_mode cfg merchant_key endpoint ≢ reject
    → resolve_throttle_mode header merchant_key endpoint cfg ≡ (
        if header == []
        then operator_mode cfg merchant_key endpoint
        else or_keep (parse_throttle_mode header) (operator_mode cfg merchant_key endpoint))
unfolding resolve_throttle_mode
resolve_request header merchant_key endpoint cfg h = ground arith

-- The header "queue" lifts an operator's queue-timeout to the queue without a time limit.
resolve_lifts_timeout :
    (merchant_key endpoint : Text) (cfg : RateLimitConfig)
    → operator_mode cfg merchant_key endpoint ≡ queue_timeout
    → resolve_throttle_mode (text "queue") merchant_key endpoint cfg ≡ queue
unfolding resolve_throttle_mode parse_throttle_mode
resolve_lifts_timeout merchant_key endpoint cfg h = rw (h, resolve_throttle_mode)

-- A known mode for the endpoint, other than queue, is the operator's choice, whatever the
-- configuration says of the merchant and by default: the endpoint takes precedence over the merchant.
operator_mode_endpoint :
    (cfg : RateLimitConfig) (merchant_key endpoint s : Text) (m : ThrottleMode)
    → lookup endpoint cfg.endpoint_modes ≡ some s
    → parse_throttle_mode s ≡ some m
    → m ≢ queue
    → operator_mode cfg merchant_key endpoint ≡ m
unfolding operator_mode
operator_mode_endpoint cfg merchant_key endpoint s m h k q = ground arith

-- An override that says queue does not shield from the default: with a known default mode, a
-- merchant whose override is queue, at an endpoint with none, gets the default.
pub operator_mode_default :
    (cfg : RateLimitConfig) (merchant_key endpoint s : Text) (m : ThrottleMode)
    → lookup endpoint cfg.endpoint_modes ≡ none
    → lookup merchant_key cfg.merchant_modes ≡ some s
    → parse_throttle_mode s ≡ some queue
    → parse_throttle_mode cfg.default_mode ≡ some m
    → operator_mode cfg merchant_key endpoint ≡ m
unfolding operator_mode
operator_mode_default cfg merchant_key endpoint s m none_here h q d = ground arith
