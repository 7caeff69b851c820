-- ===== src/RateLimit/Queue/Account.antt =====
-- internal/ratelimit/queue.go: what becomes of the requests.
use smart_proxy.Base.{
  ℕ, ◌+◌, ◌≤◌, ◌<◌, ◌≡◌, sym, subst, inl, inr, some, List, [], ◌∷◌, arith, ltb, if◌then◌else◌, ◌==◌,
  nat_eq, text_eq, Bool-cases, Option-cases, length, List-cases,
}
use smart_proxy.RateLimit.Bucket.{TokenBucket}
use smart_proxy.RateLimit.Queue.Order.{least_smaller, least_larger}
use smart_proxy.RateLimit.Queue.{
  QueuedRequest, PriorityLevel, less, least, find_request, remove_request, enqueue, remove,
  dispatch_once, Traffic, Event, enqueues, cancels, dispatches, consumes, step, run, new_traffic,
  new_request_queue,
}

-- how often a request is in a list
abbrev occurs : ℕ → List QueuedRequest → ℕ
occurs i [] = 0
occurs i (r ∷ l) = (if r.id == i then 1 else 0) + occurs i l

-- Every request that the queue accepted is waiting, released or cancelled: once, and nowhere else. And
-- no more wait than may.
pub record IsAccounted (s : Traffic) : Type 0 where
  pub once :
      (i : ℕ)
      → occurs i s.queue.heap + occurs i s.dispatched + occurs i s.cancelled
        ≡ (if ltb i s.queue.next_id then 1 else 0)
  pub within : length s.queue.heap ≤ s.queue.max_depth

occurs-least : (r : QueuedRequest) (h : List QueuedRequest) → 0 < occurs (least r h).id (r ∷ h)
unfolding least
occurs-least r [] = ground arith
occurs-least r (s ∷ h) = elim (Bool-cases (less s r)) [
  | inl e ↦
      subst (λ m. 0 < occurs m.id (r ∷ s ∷ h)) (sym (least_smaller r s h e))
        (omega (arith, occurs-least s h))
  | inr e ↦
      subst (λ m. 0 < occurs m.id (r ∷ s ∷ h)) (sym (least_larger r s h e))
        (omega (arith, occurs-least r h))
]

occurs-remove_request :
    (i j : ℕ) (h : List QueuedRequest)
    → 0 < occurs i h
    → occurs j (remove_request i h) + (if i == j then 1 else 0) ≡ occurs j h
unfolding remove_request
occurs-remove_request i j [] w = absurd (omega arith)
occurs-remove_request i j (r ∷ h) w = ground (arith, occurs-remove_request i j h)

length-remove_request : (i : ℕ) (h : List QueuedRequest) → length (remove_request i h) ≤ length h
unfolding remove_request
length-remove_request i [] = omega arith
length-remove_request i (r ∷ h) = ground (arith, length-remove_request i h)

find_request_lem :
    (i : ℕ) (h : List QueuedRequest) (r : QueuedRequest)
    → find_request i h ≡ some r
    → (r.id ≡ i) × (0 < occurs i h)
unfolding find_request
find_request_lem i [] r e = cc
find_request_lem i (s ∷ h) r e = ground (arith, find_request_lem i h r)

module _ (s : Traffic) (w : IsAccounted s) where
  enqueues-IsAccounted : (now : ℕ) (p : PriorityLevel) → IsAccounted (step s (now, enqueues p))
  unfolding step enqueue
  enqueues-IsAccounted now p = record {
    once = λ i. ground (arith, w.once i);
    within = ground (arith, w.within);
  }

  cancels-IsAccounted : (now i : ℕ) → IsAccounted (step s (now, cancels i))
  unfolding step remove
  cancels-IsAccounted now i = elim (Option-cases (find_request i s.queue.heap)) [
    | inl e ↦ record { once = λ j. ground (arith, w.once j); within = ground (arith, w.within) }
    | inr (r, e) ↦
        let (named, there) = find_request_lem i s.queue.heap r e in
        record {
          once = λ j. ground (arith, w.once j, occurs-remove_request i j s.queue.heap there);
          within = ground (arith, w.within, length-remove_request i s.queue.heap);
        }
  ]

  dispatches-IsAccounted : (now : ℕ) → IsAccounted (step s (now, dispatches))
  unfolding step dispatch_once
  dispatches-IsAccounted now = elim (List-cases s.queue.heap) [
    | inl e ↦ record { once = λ j. ground (arith, w.once j); within = ground (arith, w.within) }
    | inr (r, l, e) ↦
        let there = occurs-least r l in
        record {
          once =
              λ j. ground (arith, w.once j, occurs-remove_request (least r l).id j (r ∷ l) there);
          within = ground (arith, w.within, length-remove_request (least r l).id (r ∷ l));
        }
  ]

  consumes-IsAccounted : (now : ℕ) → IsAccounted (step s (now, consumes))
  unfolding step
  consumes-IsAccounted now = record { once = w.once; within = w.within }

run-IsAccounted : (s : Traffic) (es : List (ℕ × Event)) → IsAccounted s → IsAccounted (run s es)
unfolding run
run-IsAccounted s [] w = w
run-IsAccounted s ((now, enqueues p) ∷ es) w =
    run-IsAccounted (step s (now, enqueues p)) es (enqueues-IsAccounted s w now p)
run-IsAccounted s ((now, cancels i) ∷ es) w =
    run-IsAccounted (step s (now, cancels i)) es (cancels-IsAccounted s w now i)
run-IsAccounted s ((now, dispatches) ∷ es) w =
    run-IsAccounted (step s (now, dispatches)) es (dispatches-IsAccounted s w now)
run-IsAccounted s ((now, consumes) ∷ es) w =
    run-IsAccounted (step s (now, consumes)) es (consumes-IsAccounted s w now)

-- No request is lost and none is released twice. However calls, cancellations and rounds of the
-- dispatcher interleave on a new queue, every request that it accepted is waiting, released or
-- cancelled, in one of these ways and once; it knows no others; and no more wait than its depth allows.
pub run-new_traffic-IsAccounted :
    (max_depth : ℕ) (bucket : TokenBucket) (es : List (ℕ × Event))
    → IsAccounted (run (new_traffic max_depth bucket) es)
unfolding new_request_queue
run-new_traffic-IsAccounted max_depth bucket es =
    run-IsAccounted (new_traffic max_depth bucket) es
      (record { once = λ i. ground arith; within = omega arith })
