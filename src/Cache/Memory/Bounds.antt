-- ===== src/Cache/Memory/Bounds.antt =====
-- What the contract of internal/cache/memory.go means for its callers: the byte budget, and what is
-- read after a write.
use smart_proxy.Cache.Memory.Steps.{evict_expired-IsConsistent}
use smart_proxy.Cache.Memory.Writes.{set-IsConsistent}
use smart_proxy.Cache.Memory.Fit.{
  fit, total_size, recent, total-total_size, fit_within, without, fit_none,
}
use smart_proxy.Cache.Memory.Spec.{
  spec_tick, spec_get, spec_set, find_entry, tick-spec_tick, get-spec_get, set-spec_set,
}
use smart_proxy.Cache.Memory.Invariant.{IsConsistent}
use smart_proxy.Base.{
  ℕ, ◌+◌, ◌*◌, ◌/◌, ◌≤◌, ◌<◌, ◌≡◌, ap, ◌∙◌, ◌⊎◌, inl, inr, Bool, false, not, ◌&&◌, some, List, [],
  ◌∷◌, arith, ltb, nat_eq, text_eq, text_beq_iff, Bool-cases, All, keep, All-keep_of_test,
}
use smart_proxy.Base.Text.{Text}
use smart_proxy.Cache.Memory.{
  MemoryCache, CacheEntry, evict_expired, CachedResponse, set, get, new_entry, entry_size,
}

used_bytes-recent : (mc : MemoryCache) → IsConsistent mc → mc.used_bytes ≡ total_size (recent mc)
used_bytes-recent mc w = w.accounted ∙ total-total_size mc.lru_list

-- After a write to a cache with a budget, whose parts agree, the bytes are within the budget or the
-- cache holds the new entry alone.
pub set_bound :
    (mc : MemoryCache) (k : Text) (resp : CachedResponse) (ttl now : ℕ)
    → IsConsistent mc
    → 0 < mc.max_bytes
    → ((set mc k resp ttl now).used_bytes ≤ mc.max_bytes)
      ⊎ (recent (set mc k resp ttl now) ≡ new_entry k resp ttl now ∷ [])
unfolding spec_set
set_bound mc k resp ttl now w h =
    let after = set mc k resp ttl now in
    let over : ℕ → Bool = λ used. ltb 0 mc.max_bytes && ltb mc.max_bytes (used + entry_size resp) in
    let kept = fit over 0 (without k (recent mc)) in
    let list : recent after ≡ new_entry k resp ttl now ∷ kept = set-spec_set mc k resp ttl now w in
    let bytes : after.used_bytes ≡ entry_size resp + total_size kept =
      used_bytes-recent after (set-IsConsistent mc k resp ttl now w) ∙ ap total_size list in
    elim (Bool-cases (over 0)) [
      | inl full ↦ inr (
          list
          ∙ ap (◌∷◌ (new_entry k resp ttl now))
              (fit_none over 0 (without k (recent mc)) (λ a b p q. ground arith) full))
      | inr free ↦
          let within : over (0 + total_size kept) ≡ false =
            fit_within over 0 (without k (recent mc)) free in
          inl (ground arith)
    ]

-- In a cache whose parts agree: right after a write, and until the entry expires, a read returns
-- what was written.
pub get-set :
    (mc : MemoryCache) (k : Text) (resp : CachedResponse) (ttl now later : ℕ)
    → IsConsistent mc
    → later ≤ now + ttl
    → (get (set mc k resp ttl now) k later).1 ≡ some resp
unfolding spec_get spec_set find_entry
get-set mc k resp ttl now later w h =
    (get-spec_get (set mc k resp ttl now) k later (set-IsConsistent mc k resp ttl now w)).1
    ∙ rw (set-spec_set mc k resp ttl now w) (ground (arith, text_beq_iff k k))

All-fit {κ} :
    (P : CacheEntry → Type κ) (over : ℕ → Bool) (acc : ℕ) (l : List CacheEntry)
    → All P l
    → All P (fit over acc l)
unfolding fit
All-fit P over acc [] h = tt
All-fit P over acc (e ∷ l) (h, hs) = ground (arith, All-fit P over (acc + e.size) l hs)

-- After a tick of a cache with a budget, whose parts agree, no entry is expired and the cache is at
-- most 80 % full.
pub evict_expired_bound :
    (mc : MemoryCache) (now : ℕ)
    → IsConsistent mc
    → 0 < mc.max_bytes
    → All (λ e. now ≤ e.expires_at) (recent (evict_expired mc now))
      × ((evict_expired mc now).used_bytes ≤ mc.max_bytes * 4 / 5)
unfolding spec_tick
evict_expired_bound mc now w h =
    let after = evict_expired mc now in
    let live = keep (λ (e : CacheEntry). not (ltb e.expires_at now)) (recent mc) in
    let over : ℕ → Bool = λ used. ltb 0 mc.max_bytes && ltb (mc.max_bytes * 4 / 5) used in
    let list : recent after ≡ fit over 0 live = tick-spec_tick mc now w in
    let free : over 0 ≡ false = ground arith in
    let within : over (0 + total_size (fit over 0 live)) ≡ false = fit_within over 0 live free in
    (
      rw list (
          All-fit (λ e. now ≤ e.expires_at) over 0 live
            (All-keep_of_test (λ e. now ≤ e.expires_at) (λ e. not (ltb e.expires_at now))
              (recent mc) (λ e q. ground arith))),
      let bytes : after.used_bytes ≡ total_size (fit over 0 live) =
            used_bytes-recent after (evict_expired-IsConsistent mc now w) ∙ ap total_size list in
          ground arith,
    )
