-- ===== src/Cache/Memory/Tests.antt =====
-- Runs of internal/cache/memory.go, and the theorems at concrete caches.
use smart_proxy.Cache.Memory.Bounds.{get-set, evict_expired_bound, set_bound}
use smart_proxy.Cache.Memory.Spec.{spec_step, step-spec_step}
use smart_proxy.Cache.Memory.Steps.{run-new_memory_cache-IsConsistent}
use smart_proxy.Cache.Memory.Invariant.{IsConsistent}
use smart_proxy.Cache.Memory.Fit.{recent}
use smart_proxy.Base.{
  ℕ, ◌*◌, ◌/◌, ◌≤◌, ◌≡◌, refl, ◌⊎◌, some, List, [], ◌∷◌, map, arith, nat_eq, text_eq, text_beq, All,
}
use smart_proxy.Base.Text.{Text, text}
use smart_proxy.Base.Dict.{lookup, insert, erase}
use smart_proxy.Cache.Memory.{
  MemoryCache, new_memory_cache, run, gets, sets, deletes_by_prefix, CacheEntry, CachedResponse,
  Call, set, step, get, new_entry, evict_expired, drop_existing, make_room, evict_while,
  evict_lru_locked, remove_locked, push_front, entry_size, move_to_front, back, remove_id, find_id,
}

abbrev body_a : CachedResponse
body_a = record {
  status_code = 200;
  headers = (text "X-A", text "1" ∷ []) ∷ [];
  body = text "hello";
  cached_at = 0;
  ttl = 60;
  source_request_id = [];
}

-- Three writes into a budget of two entries, a read, and a write that evicts.
abbrev calls : List (ℕ × Call)
calls =
    (1, sets (text "m:GET:/a") body_a 60)
    ∷ (2, sets (text "m:GET:/b") body_a 60)
    ∷ (3, gets (text "m:GET:/a"))
    ∷ (4, sets (text "n:GET:/c") body_a 5)
    ∷ []

used : MemoryCache
unfolding run step new_memory_cache set get drop_existing make_room evict_while evict_lru_locked
    remove_locked push_front entry_size move_to_front back remove_id find_id lookup insert erase
    text_beq
used = run (new_memory_cache 280) calls

keys : List CacheEntry → List Text
keys l = map (λ e. e.key) l

used-keys : keys (recent used) ≡ text "n:GET:/c" ∷ text "m:GET:/a" ∷ []
unfolding keys used
used-keys = refl

used_counts : (used.used_bytes ≡ 274) × (used.evictions ≡ 1) × (used.hits ≡ 1)
unfolding used
used_counts = (refl, refl, refl)

used-IsConsistent : IsConsistent used
unfolding used
used-IsConsistent = run-new_memory_cache-IsConsistent 280 calls

run-new_memory_cache-IsConsistent_example : IsConsistent (run (new_memory_cache 280) calls)
run-new_memory_cache-IsConsistent_example = run-new_memory_cache-IsConsistent 280 calls

step-spec_step_example :
    recent (step used (9, deletes_by_prefix (text "m:")))
    ≡ spec_step used.max_bytes (recent used) (9, deletes_by_prefix (text "m:"))
step-spec_step_example = step-spec_step used (9, deletes_by_prefix (text "m:")) used-IsConsistent

set_bound_example :
    ((set used (text "k") body_a 60 5).used_bytes ≤ used.max_bytes)
    ⊎ (recent (set used (text "k") body_a 60 5) ≡ new_entry (text "k") body_a 60 5 ∷ [])
set_bound_example =
    set_bound used (text "k") body_a 60 5 used-IsConsistent (unfold used in omega arith)

get-set_example : (get (set used (text "k") body_a 60 5) (text "k") 65).1 ≡ some body_a
get-set_example = get-set used (text "k") body_a 60 5 65 used-IsConsistent (omega arith)

evict_expired_bound_example :
    All (λ e. 20 ≤ e.expires_at) (recent (evict_expired used 20))
    × ((evict_expired used 20).used_bytes ≤ used.max_bytes * 4 / 5)
evict_expired_bound_example =
    evict_expired_bound used 20 used-IsConsistent (unfold used in omega arith)
