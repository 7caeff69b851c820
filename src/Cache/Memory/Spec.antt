-- ===== src/Cache/Memory/Spec.antt =====
-- The contract of internal/cache/memory.go: a list of entries, most recently used first, that knows
-- no addresses, no map and no byte counter. The detailed cache refines it, call by call.
use smart_proxy.Cache.Memory.Eviction.{evict_while-Evicts}
use smart_proxy.Cache.Memory.Removal.{Stored-elements, evict_all-IsConsistent}
use smart_proxy.Cache.Memory.Sweep.{
  remove_all-remove_keys, evict_all-remove_keys, remove_keys-matching,
}
use smart_proxy.Cache.Memory.Steps.{move_to_front-remove_key}
use smart_proxy.Cache.Memory.Writes.{drop_existing-IsConsistent}
use smart_proxy.Cache.Memory.Invariant.{IsConsistent, remove_locked-remove_key}
use smart_proxy.Cache.Memory.Fit.{without, fit, recent, map-remove_key, Mono}
use smart_proxy.Cache.Memory.Recency.{find_key}
use smart_proxy.Base.{
  ℕ, ◌+◌, ◌*◌, ◌/◌, ◌≡◌, refl, sym, ap, ◌∙◌, inl, inr, Bool, not, ◌&&◌, Option, none, some, List,
  [], ◌∷◌, map, arith, ltb, if◌then◌else◌, ◌==◌, nat_eq, text_eq, Bool-cases, Option-cases, length,
  keep,
}
use smart_proxy.Base.Text.{Text, has_prefix}
use smart_proxy.Base.Dict.{lookup}
use mathlib.Core.Option
use smart_proxy.Cache.Memory.{
  closes, gets, sets, deletes, deletes_by_prefix, ticks, MemoryCache, Element, CachedResponse, get,
  CacheEntry, Call, new_entry, move_to_front, entry_size, remove_locked, gets, sets, deletes,
  deletes_by_prefix, ticks, set, drop_existing, drop_expired, delete_by_prefix, step, evict_expired,
  push_front, delete, trim_to_threshold, close, matching, make_room,
}

unfoldable pub find_entry : Text → List CacheEntry → Option CacheEntry
find_entry k [] = none
find_entry k (e ∷ l) = if e.key == k then some e else find_entry k l

-- A read removes what has expired, and moves what it finds to the front.
unfoldable pub spec_get : Text → ℕ → List CacheEntry → List CacheEntry × Option CachedResponse
spec_get k now l = elim (find_entry k l) [
  | none ↦ (l, none)
  | some e ↦
      if ltb e.expires_at now then (without k l, none) else (e ∷ without k l, some e.response)
]

-- A write keeps, behind the new entry, the longest prefix of the others that leaves room for it.
unfoldable pub spec_set : ℕ → Text → CachedResponse → ℕ → ℕ → List CacheEntry → List CacheEntry
spec_set max_bytes k resp ttl now l =
    new_entry k resp ttl now
    ∷ fit (λ used. ltb 0 max_bytes && ltb max_bytes (used + entry_size resp)) 0 (without k l)

-- A tick drops what has expired, and the oldest entries beyond 80 % of the budget.
unfoldable pub spec_tick : ℕ → ℕ → List CacheEntry → List CacheEntry
spec_tick max_bytes now l =
    fit (λ used. ltb 0 max_bytes && ltb (max_bytes * 4 / 5) used) 0
      (keep (λ e. not (ltb e.expires_at now)) l)

unfoldable pub spec_step : ℕ → List CacheEntry → ℕ × Call → List CacheEntry
spec_step max_bytes l (now, gets k) = (spec_get k now l).0
spec_step max_bytes l (now, sets k resp ttl) = spec_set max_bytes k resp ttl now l
spec_step max_bytes l (now, deletes k) = without k l
spec_step max_bytes l (now, deletes_by_prefix prefix) = keep (λ e. not (has_prefix e.key prefix)) l
spec_step max_bytes l (now, ticks) = spec_tick max_bytes now l
spec_step max_bytes l (now, closes) = []

find_entry-find_key :
    (k : Text) (l : List Element)
    → find_entry k (map (λ e. e.value) l) ≡ Option.map (λ e. e.value) (find_key k l)
unfolding find_entry find_key
find_entry-find_key k [] = refl
find_entry-find_key k (e ∷ l) = ground (arith, find_entry-find_key k l)

without_absent : (k : Text) (l : List CacheEntry) → find_entry k l ≡ none → without k l ≡ l
unfolding find_entry without
without_absent k [] h = refl
without_absent k (e ∷ l) h = ground (arith, without_absent k l)

recent-remove_locked :
    (mc : MemoryCache) (k : Text) {e : Element}
    → IsConsistent mc
    → lookup k mc.entries ≡ some e
    → recent (remove_locked mc e) ≡ without k (recent mc)
recent-remove_locked mc k w h =
    ap (map (λ e. e.value)) (remove_locked-remove_key mc k w (sym (w.indexed k) ∙ h))
    ∙ map-remove_key k mc.lru_list

recent-hit :
    (mc : MemoryCache) (k : Text) {e : Element}
    → IsConsistent mc
    → lookup k mc.entries ≡ some e
    → map (λ e. e.value) (move_to_front e mc.lru_list) ≡ e.value ∷ without k (recent mc)
recent-hit mc k {e} w h =
    ap (map (λ e. e.value))
      (move_to_front-remove_key k mc.lru_list w.linked (sym (w.indexed k) ∙ h))
    ∙ ap (◌∷◌ e.value) (map-remove_key k mc.lru_list)

find_entry-lookup :
    (mc : MemoryCache) (k : Text)
    → IsConsistent mc
    → find_entry k (recent mc) ≡ Option.map (λ e. e.value) (lookup k mc.entries)
find_entry-lookup mc k w =
    find_entry-find_key k mc.lru_list ∙ ap (Option.map (λ e. e.value)) (sym (w.indexed k))

-- In a cache whose parts agree, `Get` answers as the contract does, leaves the list that the
-- contract leaves, and counts one hit or one miss.
pub get-spec_get :
    (mc : MemoryCache) (k : Text) (now : ℕ)
    → IsConsistent mc
    → (recent (get mc k now).0 ≡ (spec_get k now (recent mc)).0)
      × ((get mc k now).1 ≡ (spec_get k now (recent mc)).1)
      × ((get mc k now).0.hits + (get mc k now).0.misses ≡ mc.hits + mc.misses + 1)
unfolding get spec_get
get-spec_get mc k now w = elim (Option-cases (lookup k mc.entries)) [
  | inl e ↦ rw (find_entry-lookup mc k w, e, get, spec_get) (refl, refl, omega arith)
  | inr (f, e) ↦ elim (Bool-cases (ltb f.value.expires_at now)) [
    | inl late ↦
        rw (find_entry-lookup mc k w, e, get, spec_get, late)
          (recent-remove_locked mc k w e, refl, unfold remove_locked in omega arith)
    | inr live ↦
        rw (find_entry-lookup mc k w, e, get, spec_get, live)
          (recent-hit mc k w e, refl, omega arith)
  ]
]

recent-drop_existing :
    (mc : MemoryCache) (k : Text)
    → IsConsistent mc
    → recent (drop_existing mc k) ≡ without k (recent mc)
unfolding drop_existing
recent-drop_existing mc k w = elim (Option-cases (lookup k mc.entries)) [
  | inl e ↦
      rw (e, drop_existing)
        (sym (
          without_absent k (recent mc)
            (find_entry-lookup mc k w ∙ ap (Option.map (λ x. x.value)) e)))
  | inr (f, e) ↦ rw (e, drop_existing) (recent-remove_locked mc k w e)
]

drop_existing-max_bytes :
    (mc : MemoryCache) (k : Text) → (drop_existing mc k).max_bytes ≡ mc.max_bytes
unfolding drop_existing remove_locked
drop_existing-max_bytes mc k = ground arith

set_over-Mono : (max_bytes size : ℕ) → Mono (λ used. ltb max_bytes (used + size))
set_over-Mono max_bytes size a b h e = ground arith

tick_over-Mono : (limit : ℕ) → Mono (λ used. ltb limit used)
tick_over-Mono limit a b h e = ground arith

pub set-spec_set :
    (mc : MemoryCache) (k : Text) (resp : CachedResponse) (ttl now : ℕ)
    → IsConsistent mc
    → recent (set mc k resp ttl now) ≡ spec_set mc.max_bytes k resp ttl now (recent mc)
unfolding set spec_set push_front make_room
set-spec_set mc k resp ttl now w =
    let dropped = drop_existing mc k in
    let (kept, _) =
      evict_while-Evicts (length dropped.lru_list)
        (λ used. ltb dropped.max_bytes (used + entry_size resp)) dropped
        (drop_existing-IsConsistent mc k w) (set_over-Mono dropped.max_bytes (entry_size resp))
        (omega arith) in
    ap (◌∷◌ (new_entry k resp ttl now)) (
      kept
      ∙ ap
          (fit (λ used. ltb 0 dropped.max_bytes && ltb dropped.max_bytes (used + entry_size resp))
            0)
          (recent-drop_existing mc k w)
      ∙ ap (λ m. fit (λ used. ltb 0 m && ltb m (used + entry_size resp)) 0 (without k (recent mc)))
          (drop_existing-max_bytes mc k))

keep-map :
    (p : CacheEntry → Bool) (l : List Element)
    → map (λ e. e.value) (keep (λ e. p e.value) l) ≡ keep p (map (λ e. e.value) l)
unfolding keep
keep-map p [] = refl
keep-map p (e ∷ l) = ground (arith, keep-map p l)

pub delete_by_prefix_lem :
    (mc : MemoryCache) (prefix : Text)
    → IsConsistent mc
    → recent (delete_by_prefix mc prefix) ≡ keep (λ e. not (has_prefix e.key prefix)) (recent mc)
unfolding delete_by_prefix
delete_by_prefix_lem mc prefix w =
    let p : Text → Element → Bool = λ k e. has_prefix k prefix in
    ap (map (λ e. e.value)) (
      remove_all-remove_keys (matching p mc.entries) mc w (Stored-elements mc p w)
      ∙ remove_keys-matching mc p w)
    ∙ keep-map (λ e. not (has_prefix e.key prefix)) mc.lru_list

drop_expired_lem :
    (mc : MemoryCache) (now : ℕ)
    → IsConsistent mc
    → (recent (drop_expired mc now) ≡ keep (λ e. not (ltb e.expires_at now)) (recent mc))
      × ((drop_expired mc now).max_bytes ≡ mc.max_bytes)
      × IsConsistent (drop_expired mc now)
unfolding drop_expired
drop_expired_lem mc now w =
    let p : Text → Element → Bool = λ k e. ltb e.value.expires_at now in
    let stored = Stored-elements mc p w in
    let swept = evict_all-remove_keys (matching p mc.entries) mc w stored in
    (
      ap (map (λ e. e.value)) (swept.0 ∙ remove_keys-matching mc p w)
          ∙ keep-map (λ e. not (ltb e.expires_at now)) mc.lru_list,
      swept.1,
      evict_all-IsConsistent (matching p mc.entries) mc w stored,
    )

pub tick-spec_tick :
    (mc : MemoryCache) (now : ℕ)
    → IsConsistent mc
    → recent (evict_expired mc now) ≡ spec_tick mc.max_bytes now (recent mc)
unfolding evict_expired spec_tick trim_to_threshold
tick-spec_tick mc now w =
    let swept = drop_expired mc now in
    let (left, budget_same, v) = drop_expired_lem mc now w in
    (evict_while-Evicts (length swept.lru_list) (λ used. ltb (swept.max_bytes * 4 / 5) used) swept v
      (tick_over-Mono (swept.max_bytes * 4 / 5)) (omega arith)).0
    ∙ ap (fit (λ used. ltb 0 swept.max_bytes && ltb (swept.max_bytes * 4 / 5) used) 0) left
    ∙ ap
        (λ m.
          fit (λ used. ltb 0 m && ltb (m * 4 / 5) used) 0
            (keep (λ e. not (ltb e.expires_at now)) (recent mc)))
        budget_same

-- In a cache whose parts agree, every call and every tick takes the recency list where the contract
-- takes it: what a cache with a map, pointers and a running byte count holds is what a plain list
-- of entries would hold.
pub step-spec_step :
    (mc : MemoryCache) (c : ℕ × Call)
    → IsConsistent mc
    → recent (step mc c) ≡ spec_step mc.max_bytes (recent mc) c
unfolding step spec_step delete close
step-spec_step mc (now, gets k) w = (get-spec_get mc k now w).0
step-spec_step mc (now, sets k resp ttl) w = set-spec_set mc k resp ttl now w
step-spec_step mc (now, deletes k) w = recent-drop_existing mc k w
step-spec_step mc (now, deletes_by_prefix prefix) w = delete_by_prefix_lem mc prefix w
step-spec_step mc (now, ticks) w = tick-spec_tick mc now w
step-spec_step mc (now, closes) w = refl
