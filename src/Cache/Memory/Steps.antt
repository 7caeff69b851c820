-- ===== src/Cache/Memory/Steps.antt =====
-- The invariant across every call of the cache and every tick of its eviction loop.
use smart_proxy.Base.{
  ℕ, ◌<◌, ◌≡◌, refl, inl, inr, [], ◌∷◌, none, some, arith, nat_eq, text_eq, text_beq_iff, All,
  Option-cases, List, sym, Bool-cases, ◌∙◌, ltb, nat_beq_iff,
}
use smart_proxy.Base.Text.{Text}
use smart_proxy.Base.Dict.{lookup}
use smart_proxy.Cache.Memory.{
  Element, MemoryCache, remove_locked, get, step, delete, delete_by_prefix, evict_expired,
  trim_to_threshold, drop_expired, close, Call, gets, sets, deletes, deletes_by_prefix, ticks,
  closes, run, new_memory_cache, move_to_front, find_id,
}
use smart_proxy.Cache.Memory.Recency.{
  find_key, remove_key, Linked, find_key_sound, remove_id-remove_key, find_key-remove_key,
  remove_key-Linked, remove_key-All, total-remove_key, length-remove_key, find_id_of_find_key,
  remove_key_absent,
}
use smart_proxy.Cache.Memory.Invariant.{
  IsConsistent, recount-IsConsistent, remove_locked-IsConsistent, evict_while-IsConsistent,
}
use smart_proxy.Cache.Memory.Removal.{
  Stored-elements, remove_all-IsConsistent, evict_all-IsConsistent,
}
use smart_proxy.Cache.Memory.Writes.{set-IsConsistent, drop_existing-IsConsistent}

-- A hit goes to the front; the list is otherwise the same.
pub move_to_front-remove_key :
    (k : Text) (l : List Element) {e : Element}
    → Linked l
    → find_key k l ≡ some e
    → move_to_front e l ≡ e ∷ remove_key k l
unfolding move_to_front
move_to_front-remove_key k l w h =
    rw (find_id_of_find_key k l w h, move_to_front, remove_id-remove_key k l w h)

find_id-remove_key_self :
    (k : Text) (l : List Element) {e : Element}
    → Linked l
    → find_key k l ≡ some e
    → find_id e.id (remove_key k l) ≡ none
unfolding find_key find_id remove_key
find_id-remove_key_self k [] w h = cc
find_id-remove_key_self k (f ∷ l) {e} w h = ground (
  arith,
  nat_beq_iff f.id e.id,
  text_beq_iff f.value.key k,
  remove_key_absent k l,
  find_id_of_find_key k l {e = e} w.2,
  find_id-remove_key_self k l {e = e} w.2,
)

fresh_of_find_key :
    (n : ℕ) (k : Text) (l : List Element) {e : Element}
    → All (λ f. f.id < n) l
    → find_key k l ≡ some e
    → e.id < n
unfolding find_key
fresh_of_find_key n k [] w h = cc
fresh_of_find_key n k (f ∷ l) {e} w h = ground (arith, fresh_of_find_key n k l {e = e} w.1)

hit-IsConsistent :
    (mc : MemoryCache) (k : Text) {e : Element}
    → IsConsistent mc
    → find_key k mc.lru_list ≡ some e
    → IsConsistent (record mc { lru_list = move_to_front e mc.lru_list })
unfolding find_key
hit-IsConsistent mc k {e} w h =
    let l = mc.lru_list in
    let moved = move_to_front-remove_key k l w.linked h in
    let key : e.value.key ≡ k = find_key_sound k l h in
    record {
      linked = rw moved (
        ground (arith, key, find_key-remove_key k k l, text_beq_iff k k),
        find_id-remove_key_self k l w.linked h,
        remove_key-Linked k l w.linked,
      );
      fresh = rw moved (fresh_of_find_key mc.next_id k l w.fresh h, remove_key-All _ k l w.fresh);
      indexed =
          λ j. ground (arith, moved, key, w.indexed j, text_beq_iff k j, find_key-remove_key k j l);
      distinct = w.distinct;
      counted = ground (arith, moved, length-remove_key k l {e = e} w.linked, w.counted);
      accounted = ground (arith, moved, total-remove_key k l {e = e} w.linked, w.accounted);
    }

pub get-IsConsistent :
    (mc : MemoryCache) (k : Text) (now : ℕ) → IsConsistent mc → IsConsistent (get mc k now).0
unfolding get
get-IsConsistent mc k now w = elim (Option-cases (lookup k mc.entries)) [
  | inl e ↦ rw (e, get) (recount-IsConsistent mc _ _ _ w)
  | inr (f, e) ↦ elim (Bool-cases (ltb f.value.expires_at now)) [
    | inl late ↦
        rw (e, get, late)
          (recount-IsConsistent (remove_locked mc f) _ _ _
            (remove_locked-IsConsistent mc k w (sym (w.indexed k) ∙ e)))
    | inr live ↦
        rw (e, get, live)
          (recount-IsConsistent (record mc { lru_list = move_to_front f mc.lru_list }) _ _ _
            (hit-IsConsistent mc k w (sym (w.indexed k) ∙ e)))
  ]
]

pub evict_expired-IsConsistent :
    (mc : MemoryCache) (now : ℕ) → IsConsistent mc → IsConsistent (evict_expired mc now)
unfolding evict_expired trim_to_threshold drop_expired
evict_expired-IsConsistent mc now w =
    evict_while-IsConsistent _ _ _ (evict_all-IsConsistent _ mc w (Stored-elements mc _ w))

pub delete_by_prefix-IsConsistent :
    (mc : MemoryCache) (prefix : Text) → IsConsistent mc → IsConsistent (delete_by_prefix mc prefix)
unfolding delete_by_prefix
delete_by_prefix-IsConsistent mc prefix w = remove_all-IsConsistent _ mc w (Stored-elements mc _ w)

-- Every call of the cache, and every tick of its eviction loop, keeps the map, the recency list and
-- the byte count in agreement.
pub step-IsConsistent :
    (mc : MemoryCache) (c : ℕ × Call) → IsConsistent mc → IsConsistent (step mc c)
unfolding step delete close lookup find_key
step-IsConsistent mc (now, gets k) w = get-IsConsistent mc k now w
step-IsConsistent mc (now, sets k resp ttl) w = set-IsConsistent mc k resp ttl now w
step-IsConsistent mc (now, deletes k) w = drop_existing-IsConsistent mc k w
step-IsConsistent mc (now, deletes_by_prefix prefix) w = delete_by_prefix-IsConsistent mc prefix w
step-IsConsistent mc (now, ticks) w = evict_expired-IsConsistent mc now w
step-IsConsistent mc (now, closes) w = record {
  linked = tt;
  fresh = tt;
  indexed = λ k. refl;
  distinct = tt;
  counted = refl;
  accounted = refl;
}

run-IsConsistent :
    (mc : MemoryCache) (cs : List (ℕ × Call)) → IsConsistent mc → IsConsistent (run mc cs)
unfolding run
run-IsConsistent mc [] w = w
run-IsConsistent mc (c ∷ cs) w = run-IsConsistent (step mc c) cs (step-IsConsistent mc c w)

pub new_memory_cache-IsConsistent : (max_bytes : ℕ) → IsConsistent (new_memory_cache max_bytes)
unfolding new_memory_cache lookup find_key
new_memory_cache-IsConsistent max_bytes = record {
  linked = tt;
  fresh = tt;
  indexed = λ k. refl;
  distinct = tt;
  counted = refl;
  accounted = refl;
}

-- After any history of calls and ticks on a new cache its map, its recency list and its byte count
-- agree.
pub run-new_memory_cache-IsConsistent :
    (max_bytes : ℕ) (cs : List (ℕ × Call)) → IsConsistent (run (new_memory_cache max_bytes) cs)
run-new_memory_cache-IsConsistent max_bytes cs =
    run-IsConsistent (new_memory_cache max_bytes) cs (new_memory_cache-IsConsistent max_bytes)
