-- ===== src/RateLimit/Queue/Tests.antt =====
-- Runs of internal/ratelimit/queue.go, and the theorems at concrete inputs.
use smart_proxy.Base.Text.{to_lower, text}
use smart_proxy.Base.{
  ℕ, ◌+◌, ◌-◌, ◌*◌, ◌≤◌, ◌≡◌, refl, List, [], ◌∷◌, arith, nat_eq, text_eq, length, All, text_beq,
}
use smart_proxy.RateLimit.Bucket.{TokenBucket, try_consume, one_token, one_rate, effective_rate}
use smart_proxy.RateLimit.Queue.{
  resolve_priority, depth, step, remove, enqueue, new_request_queue, RequestQueue, QueuedRequest,
  priority_high, priority_low, dispatch_once, run, new_traffic, enqueues, cancels, dispatches,
  consumes, Event, rank, to_lower, priority_normal,
}
use smart_proxy.RateLimit.Queue.Order.{dispatch_once_first}
use smart_proxy.RateLimit.Queue.Account.{IsAccounted, run-new_traffic-IsAccounted}
use smart_proxy.RateLimit.Queue.Rate.{run-new_traffic_bound}

-- One request a second with bursts of two, unthrottled and full at time 0.
abbrev full : TokenBucket
full = record {
  tokens = 2 * one_token;
  max_tokens = 2 * one_token;
  refill_rate = one_rate;
  last_refill = 0;
  throttle = one_rate;
}

abbrev two_waiting : RequestQueue
two_waiting = record {
  heap =
      record { id = 1; priority = priority_low; enqueued_at = 5 }
      ∷ record { id = 2; priority = priority_high; enqueued_at = 7 }
      ∷ record { id = 0; priority = priority_high; enqueued_at = 6 }
      ∷ [];
  max_depth = 3;
  next_id = 3;
}

abbrev urgent : QueuedRequest
urgent = record { id = 0; priority = priority_high; enqueued_at = 6 }

priorities :
    (resolve_priority (text "HIGH") ≡ priority_high)
    × (resolve_priority [] ≡ priority_normal)
    × (depth two_waiting ≡ 3)
unfolding resolve_priority to_lower text_beq depth
priorities = (refl, refl, refl)

dispatch_once_first_example :
    All
      (λ r.
        (rank urgent.priority ≤ rank r.priority)
        × (rank urgent.priority ≡ rank r.priority → urgent.enqueued_at ≤ r.enqueued_at))
      (dispatch_once two_waiting full 8).0.heap
dispatch_once_first_example =
    dispatch_once_first two_waiting full 8 urgent
      (unfold dispatch_once try_consume effective_rate in refl)

-- Of three that come to a queue of depth two, one is refused, one cancelled and one released.
abbrev events : List (ℕ × Event)
events =
    (1, enqueues priority_low)
    ∷ (2, enqueues priority_high)
    ∷ (3, enqueues priority_high)
    ∷ (4, cancels 1)
    ∷ (5, consumes)
    ∷ (6, dispatches)
    ∷ []

history :
    ((run (new_traffic 2 full) events).dispatched
      ≡ record { id = 0; priority = priority_low; enqueued_at = 1 } ∷ [])
    × ((run (new_traffic 2 full) events).direct ≡ 1)
    × ((run (new_traffic 2 full) events).queue.heap ≡ [])
unfolding run try_consume effective_rate step dispatch_once remove enqueue new_request_queue
history = (refl, refl, refl)

run-new_traffic-IsAccounted_example : IsAccounted (run (new_traffic 2 full) events)
run-new_traffic-IsAccounted_example = run-new_traffic-IsAccounted 2 full events

run-new_traffic_bound_example :
    (length (run (new_traffic 2 full) events).dispatched + (run (new_traffic 2 full) events).direct)
      * one_token
    ≤ 2 * one_token + (6 - 0) * effective_rate full
run-new_traffic_bound_example = run-new_traffic_bound 2 full events (ground arith)
