-- ===== src/RateLimit/Queue.antt =====
-- internal/ratelimit/queue.go: the requests that wait for a token, by priority and time of arrival.
-- container/heap keeps them; what the code relies on is that `heap.Pop` takes out a least one by `Less`, of
-- equal ones any: here the first. A request's `id` stands for its address, with which `remove`
-- finds it. The bucket is shared with the middleware, so it is passed along. Every step below runs
-- under the queue's lock; which step comes next is up to the goroutines, so a history is any sequence
-- of events. A stopped queue goes on as long as its dispatcher does not wait: stopping changes nothing
-- but what a waiting call returns.
mod Order
mod Account
mod Rate
mod Tests
use smart_proxy.Base.{
  ℕ, suc, Bool, Option, none, some, List, [], ◌∷◌, ltb, leb, if◌then◌else◌, ◌==◌, nat_eq, text_eq,
  text_beq, length,
}
use smart_proxy.Base.Text.{Text, text, to_lower}
use smart_proxy.RateLimit.Bucket.{TokenBucket, try_consume}

pub data PriorityLevel : Type 0 where
  priority_high priority_normal priority_low : PriorityLevel

abbrev pub rank : PriorityLevel → ℕ
rank priority_high = 0
rank priority_normal = 1
rank priority_low = 2

-- by the header X-SP-Proxy-Priority
resolve_priority : Text → PriorityLevel
unfolding to_lower text_beq
resolve_priority header =
    if to_lower header == text "high"
    then priority_high
    else if to_lower header == text "low"
    then priority_low
    else priority_normal

pub record QueuedRequest : Type 0 where
  pub id : ℕ
  pub priority : PriorityLevel
  pub enqueued_at : ℕ

pub record RequestQueue : Type 0 where
  pub heap : List QueuedRequest
  pub max_depth : ℕ
  pub next_id : ℕ

unfoldable pub new_request_queue : ℕ → RequestQueue
new_request_queue max_depth = record { heap = []; max_depth = max_depth; next_id = 0 }

unfoldable pub less : QueuedRequest → QueuedRequest → Bool
less r s =
    if rank r.priority == rank s.priority
    then ltb r.enqueued_at s.enqueued_at
    else ltb (rank r.priority) (rank s.priority)

unfoldable pub least : QueuedRequest → List QueuedRequest → QueuedRequest
unfolding less
least r [] = r
least r (s ∷ h) = least (if less s r then s else r) h

unfoldable pub find_request : ℕ → List QueuedRequest → Option QueuedRequest
find_request i [] = none
find_request i (r ∷ h) = if r.id == i then some r else find_request i h

unfoldable pub remove_request : ℕ → List QueuedRequest → List QueuedRequest
remove_request i [] = []
remove_request i (r ∷ h) = if r.id == i then h else r ∷ remove_request i h

-- the part of Enqueue under the lock; `none` is ErrQueueFull
unfoldable pub enqueue : RequestQueue → PriorityLevel → ℕ → RequestQueue × Option QueuedRequest
enqueue q priority now =
    let req : QueuedRequest = record { id = q.next_id; priority = priority; enqueued_at = now } in
    if leb q.max_depth (length q.heap)
    then (q, none)
    else (record q { heap = req ∷ q.heap; next_id = suc q.next_id }, some req)

-- what Enqueue does when the caller's context ends, with the request that it takes out, if it waits
unfoldable pub remove : RequestQueue → ℕ → RequestQueue × Option QueuedRequest
unfolding find_request remove_request
remove q i = elim (find_request i q.heap) [
  | none ↦ (q, none)
  | some req ↦ (record q { heap = remove_request i q.heap }, some req)
]

-- One round of the dispatcher: the request that it releases, if there is one and a token for it.
unfoldable pub dispatch_once :
    RequestQueue → TokenBucket → ℕ → RequestQueue × TokenBucket × Option QueuedRequest
unfolding least remove_request
dispatch_once q bucket now = elim q.heap [
  | [] ↦ (q, bucket, none)
  | r ∷ h ↦
      let (bucket', allowed, _) = try_consume bucket now in
      let req = least r h in
      if allowed
      then (record q { heap = remove_request req.id (r ∷ h) }, bucket', some req)
      else (q, bucket', none)
]

depth : RequestQueue → ℕ
depth q = length q.heap

-- A queue and its bucket in use, with what has become of the requests, and how many tokens the
-- middleware took from the bucket itself.
pub record Traffic : Type 0 where
  pub queue : RequestQueue
  pub bucket : TokenBucket
  pub dispatched : List QueuedRequest
  pub cancelled : List QueuedRequest
  pub direct : ℕ

pub data Event : Type 0 where
  enqueues : PriorityLevel → Event
  cancels : ℕ → Event
  dispatches : Event
  consumes : Event

abbrev note : Option QueuedRequest → List QueuedRequest → List QueuedRequest
note none l = l
note (some r) l = r ∷ l

unfoldable pub step : Traffic → ℕ × Event → Traffic
step s (now, enqueues priority) = record s { queue = (enqueue s.queue priority now).0 }
step s (now, cancels i) =
    let (q, gone) = remove s.queue i in record s { queue = q; cancelled = note gone s.cancelled }
step s (now, dispatches) =
    let (q, b, released) = dispatch_once s.queue s.bucket now in
    record s { queue = q; bucket = b; dispatched = note released s.dispatched }
step s (now, consumes) =
    let (b, allowed, _) = try_consume s.bucket now in
    record s { bucket = b; direct = if allowed then suc s.direct else s.direct }

unfoldable pub run : Traffic → List (ℕ × Event) → Traffic
run s [] = s
run s (e ∷ es) = run (step s e) es

abbrev pub new_traffic : ℕ → TokenBucket → Traffic
new_traffic max_depth bucket = record {
  queue = new_request_queue max_depth;
  bucket = bucket;
  dispatched = [];
  cancelled = [];
  direct = 0;
}
