-- ===== src/RateLimit/Queue/Rate.antt =====
-- internal/ratelimit/queue.go beside internal/ratelimit/bucket.go: the queue keeps the rate limit.
use smart_proxy.Base.{
  ℕ, ◌+◌, ◌-◌, ◌*◌, ◌≤◌, ◌≡◌, refl, ap, ◌∙◌, ◌⊎◌, inl, inr, List, [], ◌∷◌, ◌++◌, map, arith,
  if◌then◌else◌, nat_eq, text_eq, Bool-cases, length, List-cases,
}
use smart_proxy.RateLimit.Bucket.{
  TokenBucket, try_consume, consume_all, consume_all_bound, Rising, last_time, one_token,
  effective_rate,
}
use smart_proxy.RateLimit.Queue.{
  QueuedRequest, dispatch_once, Traffic, Event, enqueues, cancels, dispatches, consumes, step, run,
  new_traffic,
}

-- when an event asks the bucket for a token
abbrev asks : List QueuedRequest → ℕ × Event → List ℕ
asks heap (now, enqueues p) = []
asks heap (now, cancels i) = []
asks heap (now, consumes) = now ∷ []
asks [] (now, dispatches) = []
asks (r ∷ heap) (now, dispatches) = now ∷ []

calls : Traffic → List (ℕ × Event) → List ℕ
calls s [] = []
calls s (e ∷ es) = asks s.queue.heap e ++ calls (step s e) es

abbrev granted : Traffic → ℕ
granted s = length s.dispatched + s.direct

consume_all-append :
    (b : TokenBucket) (now : ℕ) (ts : List ℕ)
    → (consume_all b (now ∷ ts)).1
      ≡ (if (try_consume b now).1 then 1 else 0) + (consume_all (try_consume b now).0 ts).1
unfolding consume_all
consume_all-append b now ts = ground arith

granted-step :
    (s : Traffic) (e : ℕ × Event) (ts : List ℕ)
    → granted (step s e) + (consume_all (step s e).bucket ts).1
      ≡ granted s + (consume_all s.bucket (asks s.queue.heap e ++ ts)).1
unfolding step dispatch_once
granted-step s (now, enqueues p) ts = refl
granted-step s (now, cancels i) ts = refl
granted-step s (now, consumes) ts = ground (arith, consume_all-append s.bucket now ts)
granted-step s (now, dispatches) ts = elim (List-cases s.queue.heap) [
  | inl e ↦ simp (e, dispatch_once) refl
  | inr (r, l, e) ↦
      let asked = consume_all-append s.bucket now ts in
      elim (Bool-cases (try_consume s.bucket now).1) [
        | inl f ↦ simp (e, f, dispatch_once) (omega (arith, rw f at asked))
        | inr f ↦ simp (e, f, dispatch_once) (omega (arith, rw f at asked))
      ]
]

granted-run :
    (s : Traffic) (es : List (ℕ × Event))
    → granted (run s es) ≡ granted s + (consume_all s.bucket (calls s es)).1
unfolding run calls consume_all
granted-run s [] = omega arith
granted-run s (e ∷ es) = granted-run (step s e) es ∙ granted-step s e (calls (step s e) es)

abbrev times : List (ℕ × Event) → List ℕ
times es = map (λ e. e.0) es

asks-cases :
    (heap : List QueuedRequest) (now : ℕ) (e : Event)
    → (asks heap (now, e) ≡ []) ⊎ (asks heap (now, e) ≡ now ∷ [])
asks-cases heap now (enqueues p) = inl refl
asks-cases heap now (cancels i) = inl refl
asks-cases heap now consumes = inr refl
asks-cases [] now dispatches = inl refl
asks-cases (r ∷ heap) now dispatches = inr refl

Rising-earlier :
    (t u : ℕ) (ts : List ℕ) → t ≤ u → Rising u ts → Rising t ts × (last_time t ts ≤ last_time u ts)
Rising-earlier t u [] le w = (tt, le)
Rising-earlier t u (v ∷ ts) le (h, w) = ((omega arith, w), omega arith)

mul_le : (a b c : ℕ) → a ≤ b → a * c ≤ b * c
mul_le a b c h = grind arith

Rising-calls :
    (t : ℕ) (s : Traffic) (es : List (ℕ × Event))
    → Rising t (times es)
    → Rising t (calls s es) × (last_time t (calls s es) ≤ last_time t (times es))
unfolding calls
Rising-calls t s [] w = (tt, omega arith)
Rising-calls t s ((now, e) ∷ es) (h, w) =
    let (rising, last) = Rising-calls now (step s (now, e)) es w in
    elim (asks-cases s.queue.heap now e) [
      | inl idle ↦
          let (earlier, first) = Rising-earlier t now (calls (step s (now, e)) es) h rising in
          rw (idle, calls) (earlier, omega arith)
      | inr asked ↦ rw (asked, calls) ((h, rising), last)
    ]

-- The queue keeps the rate limit. However requests come, are cancelled and are released, and however
-- often the middleware takes a token itself, the requests released and the tokens taken are together
-- at most the tokens in the bucket at the start and those that the effective rate brings in until the
-- last event. The events' times do not fall.
pub run-new_traffic_bound :
    (max_depth : ℕ) (bucket : TokenBucket) (es : List (ℕ × Event))
    → Rising bucket.last_refill (map (λ e. e.0) es)
    → (length (run (new_traffic max_depth bucket) es).dispatched
          + (run (new_traffic max_depth bucket) es).direct)
        * one_token
      ≤ bucket.tokens
        + (last_time bucket.last_refill (map (λ e. e.0) es) - bucket.last_refill)
          * effective_rate bucket
run-new_traffic_bound max_depth bucket es w =
    let s = new_traffic max_depth bucket in
    let counted = granted-run s es in
    let (rising, last) = Rising-calls bucket.last_refill s es w in
    let bound = consume_all_bound bucket (calls s es) rising in
    let longer : (last_time bucket.last_refill (calls s es) - bucket.last_refill)
          * effective_rate bucket
        ≤ (last_time bucket.last_refill (times es) - bucket.last_refill) * effective_rate bucket =
      mul_le _ _ (effective_rate bucket) (omega arith) in
    let same = ap (λ (n : ℕ). n * one_token) counted in omega (arith, bound, longer, same)
