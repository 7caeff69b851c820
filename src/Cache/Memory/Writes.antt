-- ===== src/Cache/Memory/Writes.antt =====
-- The invariant across a write of the cache: the old entry goes, room is made, the new one comes first.
use smart_proxy.Base.{
  ℕ, zero, suc, ◌<◌, ◌≡◌, refl, inl, inr, Bool, [], ◌∷◌, none, arith, nat_eq, text_eq, text_beq_iff,
  All, Option-cases, List, sym, ◌∙◌,
}
use smart_proxy.Base.Text.{Text}
use smart_proxy.Base.Dict.{Dict, lookup, erase, insert, lookup-insert, insert-IsDistinct}
use smart_proxy.Cache.Memory.{
  Element, MemoryCache, back, evict_lru_locked, evict_while, push_front, drop_existing, CacheEntry,
  set, make_room, CachedResponse, new_entry,
}
use smart_proxy.Cache.Memory.Recency.{
  find_key, find_key-remove_key, find_key-back, find_id_of_bound,
}
use smart_proxy.Cache.Memory.Invariant.{
  IsConsistent, remove_locked-remove_key, remove_locked-IsConsistent, evict_lru_locked-IsConsistent,
  evict_while-IsConsistent,
}

pub drop_existing-IsConsistent :
    (mc : MemoryCache) (k : Text) → IsConsistent mc → IsConsistent (drop_existing mc k)
unfolding drop_existing
drop_existing-IsConsistent mc k w = elim (Option-cases (lookup k mc.entries)) [
  | inl e ↦ rw (e, drop_existing) w
  | inr (f, e) ↦ rw (e, drop_existing) (remove_locked-IsConsistent mc k w (sym (w.indexed k) ∙ e))
]

All-fresh-suc : (n : ℕ) (l : List Element) → All (λ e. e.id < n) l → All (λ e. e.id < suc n) l
All-fresh-suc n [] h = tt
All-fresh-suc n (e ∷ l) h = (omega arith, All-fresh-suc n l h.1)

erase_absent : (k : Text) (d : Dict Text Element) → lookup k d ≡ none → erase k d ≡ d
unfolding lookup erase
erase_absent k [] h = refl
erase_absent k ((j, e) ∷ d) h = ground (arith, erase_absent k d)

-- A new entry goes in once its key is gone.
push_front-IsConsistent :
    (mc : MemoryCache) (entry : CacheEntry)
    → IsConsistent mc
    → find_key entry.key mc.lru_list ≡ none
    → IsConsistent (push_front mc entry)
unfolding push_front find_key insert
push_front-IsConsistent mc entry w h = record {
  linked = (h, find_id_of_bound mc.next_id mc.lru_list w.fresh, w.linked);
  fresh = (omega arith, All-fresh-suc mc.next_id mc.lru_list w.fresh);
  indexed = λ j. ground (
    arith,
    lookup-insert entry.key j (record { id = mc.next_id; value = entry }) mc.entries,
    w.indexed j,
  );
  distinct =
      insert-IsDistinct entry.key (record { id = mc.next_id; value = entry }) mc.entries w.distinct;
  counted = ground (arith, erase_absent entry.key mc.entries, w.indexed entry.key, w.counted);
  accounted = omega (arith, w.accounted);
}

-- The key of `set` is absent from the list, before and after room is made.
find_key-drop_existing :
    (mc : MemoryCache) (k : Text)
    → IsConsistent mc
    → find_key k (drop_existing mc k).lru_list ≡ none
unfolding drop_existing
find_key-drop_existing mc k w = elim (Option-cases (lookup k mc.entries)) [
  | inl e ↦ rw (e, drop_existing) (sym (w.indexed k) ∙ e)
  | inr (f, e) ↦
      rw (e, drop_existing)
        (rw (remove_locked-remove_key mc k w (sym (w.indexed k) ∙ e))
          (ground (arith, find_key-remove_key k k mc.lru_list, text_beq_iff k k)))
]

find_key-evict_lru_locked :
    (mc : MemoryCache) (k : Text)
    → IsConsistent mc
    → find_key k mc.lru_list ≡ none
    → find_key k (evict_lru_locked mc).lru_list ≡ none
unfolding evict_lru_locked
find_key-evict_lru_locked mc k w h = elim (Option-cases (back mc.lru_list)) [
  | inl e ↦ rw (e, evict_lru_locked) h
  | inr (f, e) ↦
      let at_back = find_key-back mc.lru_list w.linked e in
      rw (e, evict_lru_locked)
        (rw (remove_locked-remove_key mc f.value.key w at_back)
          (ground (arith, find_key-remove_key f.value.key k mc.lru_list)))
]

find_key-evict_while :
    (fuel : ℕ) (over : ℕ → Bool) (mc : MemoryCache) (k : Text)
    → IsConsistent mc
    → find_key k mc.lru_list ≡ none
    → find_key k (evict_while fuel over mc).lru_list ≡ none
unfolding evict_while
find_key-evict_while zero over mc k w h = h
find_key-evict_while (suc fuel) over mc k w h = ground (
  arith,
  find_key-evict_while fuel over (evict_lru_locked mc) k (evict_lru_locked-IsConsistent mc w)
      (find_key-evict_lru_locked mc k w h),
)

pub set-IsConsistent :
    (mc : MemoryCache) (k : Text) (resp : CachedResponse) (ttl now : ℕ)
    → IsConsistent mc
    → IsConsistent (set mc k resp ttl now)
unfolding set make_room
set-IsConsistent mc k resp ttl now w =
    let v = drop_existing-IsConsistent mc k w in
    push_front-IsConsistent _ (new_entry k resp ttl now) (evict_while-IsConsistent _ _ _ v)
      (find_key-evict_while _ _ _ k v (find_key-drop_existing mc k w))
