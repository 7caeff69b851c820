-- ===== src/Cache/Memory/Invariant.antt =====
-- The invariant of internal/cache/memory.go: the map, the list and the byte count agree.
use smart_proxy.Base.{
  ℕ, zero, suc, ◌+◌, ◌<◌, ◌≡◌, refl, inl, inr, Bool, [], ◌∷◌, none, some, arith, nat_eq, text_eq,
  text_beq_iff, length, All, Option-cases,
}
use smart_proxy.Base.Text.{Text}
use smart_proxy.Base.Dict.{Dict, lookup, erase, IsDistinct, lookup-erase, erase-IsDistinct}
use smart_proxy.Cache.Memory.{
  Element, MemoryCache, remove_id, back, remove_locked, evict_lru_locked, evict_while,
}
use smart_proxy.Cache.Memory.Recency.{
  find_key, remove_key, total, Linked, find_key_sound, remove_id-remove_key, find_key-remove_key,
  remove_key-Linked, remove_key-All, total-remove_key, length-remove_key, find_key-back,
}

pub record IsConsistent (mc : MemoryCache) : Type 0 where
  pub linked : Linked mc.lru_list
  pub fresh : All (λ e. e.id < mc.next_id) mc.lru_list
  pub indexed : (k : Text) → lookup k mc.entries ≡ find_key k mc.lru_list
  pub distinct : IsDistinct mc.entries
  pub counted : length mc.entries ≡ length mc.lru_list
  pub accounted : mc.used_bytes ≡ total mc.lru_list

length-erase :
    (k : Text) (d : Dict Text Element) {e : Element}
    → IsDistinct d
    → lookup k d ≡ some e
    → length (erase k d) + 1 ≡ length d
unfolding lookup erase
length-erase k [] w h = cc
length-erase k ((j, f) ∷ d) {e} w h =
    ground (arith, text_beq_iff j k, length-erase_absent k d, length-erase k d {e = e} w.1)
  where
    length-erase_absent :
        (i : Text) (m : Dict Text Element) → lookup i m ≡ none → length (erase i m) ≡ length m
    length-erase_absent i [] h = refl
    length-erase_absent i ((n, g) ∷ m) h = ground (arith, length-erase_absent i m)

-- What removing a stored element leaves, with the addresses gone.
pub remove_locked-remove_key :
    (mc : MemoryCache) (k : Text) {e : Element}
    → IsConsistent mc
    → find_key k mc.lru_list ≡ some e
    → (remove_locked mc e).lru_list ≡ remove_key k mc.lru_list
unfolding remove_locked
remove_locked-remove_key mc k w h = remove_id-remove_key k mc.lru_list w.linked h

pub remove_locked-IsConsistent :
    (mc : MemoryCache) (k : Text) {e : Element}
    → IsConsistent mc
    → find_key k mc.lru_list ≡ some e
    → IsConsistent (remove_locked mc e)
unfolding remove_locked
remove_locked-IsConsistent mc k {e} w h =
    let l = mc.lru_list in
    let same : remove_id e.id l ≡ remove_key k l = remove_id-remove_key k l w.linked h in
    let key : e.value.key ≡ k = find_key_sound k l h in
    record {
      linked = rw same (remove_key-Linked k l w.linked);
      fresh = rw same (remove_key-All _ k l w.fresh);
      indexed = λ j.
          ground
            (arith, same, key, lookup-erase k j mc.entries, find_key-remove_key k j l, w.indexed j);
      distinct = erase-IsDistinct e.value.key mc.entries w.distinct;
      counted = ground (
        arith,
        same,
        key,
        length-erase k mc.entries {e = e} w.distinct,
        w.indexed k,
        length-remove_key k l {e = e} w.linked,
        w.counted,
      );
      accounted = ground (arith, same, total-remove_key k l {e = e} w.linked, w.accounted);
    }

-- The counters are no part of the invariant.
pub recount-IsConsistent :
    (mc : MemoryCache) (hits misses evictions : ℕ)
    → IsConsistent mc
    → IsConsistent (record mc { hits = hits; misses = misses; evictions = evictions })
recount-IsConsistent mc hits misses evictions w = record {
  linked = w.linked;
  fresh = w.fresh;
  indexed = w.indexed;
  distinct = w.distinct;
  counted = w.counted;
  accounted = w.accounted;
}

pub evict_lru_locked-IsConsistent :
    (mc : MemoryCache) → IsConsistent mc → IsConsistent (evict_lru_locked mc)
unfolding evict_lru_locked
evict_lru_locked-IsConsistent mc w = elim (Option-cases (back mc.lru_list)) [
  | inl e ↦ rw (e, evict_lru_locked) w
  | inr (f, e) ↦
      rw (e, evict_lru_locked)
        (recount-IsConsistent (remove_locked mc f) _ _ _
          (remove_locked-IsConsistent mc f.value.key w (find_key-back mc.lru_list w.linked e)))
]

pub evict_while-IsConsistent :
    (fuel : ℕ) (over : ℕ → Bool) (mc : MemoryCache)
    → IsConsistent mc
    → IsConsistent (evict_while fuel over mc)
unfolding evict_while
evict_while-IsConsistent zero over mc w = w
evict_while-IsConsistent (suc fuel) over mc w = grind (
  arith,
  evict_while-IsConsistent fuel over (evict_lru_locked mc) (evict_lru_locked-IsConsistent mc w),
)
