-- ===== src/RateLimit/Queue/Order.antt =====
-- internal/ratelimit/queue.go: who is released first.
use smart_proxy.Base.{
  ℕ, ◌≤◌, ◌≡◌, sym, ap, subst, inl, inr, true, false, none, some, List, [], ◌∷◌, arith,
  if◌then◌else◌, nat_eq, text_eq, Bool-cases, All, List-cases, All-map_rule,
}
use mathlib.Core.Option.{some-injective}
use smart_proxy.RateLimit.Bucket.{TokenBucket, try_consume}
use smart_proxy.RateLimit.Queue.{
  QueuedRequest, RequestQueue, rank, less, least, remove_request, dispatch_once,
}

less_total : (a b c : QueuedRequest) → less b a ≡ false → less c b ≡ false → less c a ≡ false
unfolding less
less_total a b c h k = ground arith

less_irrefl : (a : QueuedRequest) → less a a ≡ false
unfolding less
less_irrefl a = ground arith

less_asymm : (a b : QueuedRequest) → less a b ≡ true → less b a ≡ false
unfolding less
less_asymm a b h = ground arith

pub least_smaller :
    (r s : QueuedRequest) (h : List QueuedRequest) → less s r ≡ true → least r (s ∷ h) ≡ least s h
unfolding least
least_smaller r s h e = ap (λ b. least (if b then s else r) h) e

pub least_larger :
    (r s : QueuedRequest) (h : List QueuedRequest) → less s r ≡ false → least r (s ∷ h) ≡ least r h
unfolding least
least_larger r s h e = ap (λ b. least (if b then s else r) h) e

-- The least request is not after any other.
least_lem :
    (r : QueuedRequest) (h : List QueuedRequest) → All (λ s. less s (least r h) ≡ false) (r ∷ h)
unfolding least
least_lem r [] = (less_irrefl r, tt)
least_lem r (s ∷ h) = elim (Bool-cases (less s r)) [
  | inl e ↦
      let (first, rest) = least_lem s h in
      subst (λ m. All (λ t. less t m ≡ false) (r ∷ s ∷ h)) (sym (least_smaller r s h e))
        (less_total (least s h) s r first (less_asymm s r e), (first, rest))
  | inr e ↦
      let (first, rest) = least_lem r h in
      subst (λ m. All (λ t. less t m ≡ false) (r ∷ s ∷ h)) (sym (least_larger r s h e))
        (first, (less_total (least r h) r s first e, rest))
]

remove_request-All :
    (P : QueuedRequest → Type 0) (i : ℕ) (h : List QueuedRequest)
    → All P h
    → All P (remove_request i h)
unfolding remove_request
remove_request-All P i [] w = tt
remove_request-All P i (r ∷ h) (p, w) = ground (arith, remove_request-All P i h w)

-- `r` has no higher priority than `req`, and with the same one did not come before it.
abbrev NotBefore : QueuedRequest → QueuedRequest → Type 0
NotBefore req r =
    (rank req.priority ≤ rank r.priority)
    × (rank req.priority ≡ rank r.priority → req.enqueued_at ≤ r.enqueued_at)

not_before : (r req : QueuedRequest) → less r req ≡ false → NotBefore req r
unfolding less
not_before r req h = (ground arith, λ same. ground arith)

-- The order of release. Where a round of the dispatcher releases a request, none of those that go on
-- waiting has a higher priority, and none of the same priority came earlier.
pub dispatch_once_first :
    (q : RequestQueue) (bucket : TokenBucket) (now : ℕ) (req : QueuedRequest)
    → (dispatch_once q bucket now).2 ≡ some req
    → All
        (λ r.
          (rank req.priority ≤ rank r.priority)
          × (rank req.priority ≡ rank r.priority → req.enqueued_at ≤ r.enqueued_at))
        (dispatch_once q bucket now).0.heap
unfolding dispatch_once
dispatch_once_first q bucket now req h = elim (List-cases q.heap) [
  | inl e ↦ let idle : none ≡ some req = rw (e, dispatch_once) at h in cc
  | inr (r, l, e) ↦ elim (Bool-cases (try_consume bucket now).1) [
    | inr denied ↦ let idle : none ≡ some req = rw (e, dispatch_once, denied) at h in cc
    | inl allowed ↦
        let released : least r l ≡ req =
          some-injective (least r l) req (rw (e, dispatch_once, allowed) at h) in
        rw (e, dispatch_once, allowed)
          (subst (λ m. All (NotBefore m) (remove_request (least r l).id (r ∷ l))) released
            (remove_request-All (NotBefore (least r l)) (least r l).id (r ∷ l)
              (All-map_rule (r ∷ l) (λ s. not_before s (least r l)) (least_lem r l))))
  ]
]
