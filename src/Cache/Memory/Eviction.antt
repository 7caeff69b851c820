-- ===== src/Cache/Memory/Eviction.antt =====
-- What `set` and the eviction loop of internal/cache/memory.go leave in the cache: the most recently
-- used entries that fit, and no more evictions than that takes.
use smart_proxy.Cache.Memory.Invariant.{
  IsConsistent, remove_locked-remove_key, evict_lru_locked-IsConsistent,
}
use smart_proxy.Cache.Memory.Recency.{remove_key, find_key, Linked, find_key-back}
use mathlib.Core.List.{map-append}
use smart_proxy.Base.{
  ℕ, List, Bool, ◌≤◌, ◌+◌, ◌≡◌, ◌++◌, ◌∷◌, map, some, true, [], false, arith, text_beq_iff, text_eq,
  nat_eq, refl, Bool-cases, ap, inl, inr, length, ltb, suc, ◌&&◌, zero-add, sym, length-append, ◌∙◌,
  ◌⊎◌, subst, zero,
}
use smart_proxy.Cache.Memory.{
  MemoryCache, back, CacheEntry, Element, evict_lru_locked, evict_while, remove_locked, is_nonempty,
}
use smart_proxy.Cache.Memory.Fit.{
  recent, total_size, fit, Mono, total-total_size, fit_all, fit-snoc,
}

-- The list splits before its last element.
remove_key-back :
    (l : List Element) {e : Element}
    → Linked l
    → back l ≡ some e
    → l ≡ remove_key e.value.key l ++ e ∷ []
unfolding back remove_key find_key
remove_key-back [] w h = cc
remove_key-back (f ∷ []) {e} w h = ground (arith, text_beq_iff f.value.key f.value.key)
remove_key-back (f ∷ g ∷ l) {e} w h = ground (
  arith,
  text_beq_iff f.value.key e.value.key,
  find_key-back (g ∷ l) {e = e} w.2 h,
  remove_key-back (g ∷ l) {e = e} w.2 h,
)

back_total : (f : Element) (l : List Element) → (e : Element) × (back (f ∷ l) ≡ some e)
unfolding back
back_total f [] = (f, refl)
back_total f (g ∷ l) = back_total g l

-- One eviction drops the least recently used entry.
evict_lru_locked-recent :
    (mc : MemoryCache) (f : Element) (l : List Element)
    → IsConsistent mc
    → mc.lru_list ≡ f ∷ l
    → (e : CacheEntry) × (recent mc ≡ recent (evict_lru_locked mc) ++ e ∷ [])
      × ((evict_lru_locked mc).evictions ≡ mc.evictions + 1)
unfolding evict_lru_locked
evict_lru_locked-recent mc f l w h =
    let (e, found) = back_total f l in
    let at_back : back mc.lru_list ≡ some e = rw h found in
    let key = find_key-back mc.lru_list w.linked at_back in
    let split : mc.lru_list ≡ (remove_locked mc e).lru_list ++ e ∷ [] =
      rw (remove_locked-remove_key mc e.value.key w key)
        (remove_key-back mc.lru_list w.linked at_back) in
    (
      e.value,
      rw (at_back, evict_lru_locked)
          (ap (map (λ x. x.value)) split
            ∙ map-append (λ x. x.value) (remove_locked mc e).lru_list (e ∷ [])),
      rw (at_back, evict_lru_locked),
    )

evict_lru_locked-max_bytes : (mc : MemoryCache) → (evict_lru_locked mc).max_bytes ≡ mc.max_bytes
unfolding evict_lru_locked remove_locked
evict_lru_locked-max_bytes mc = ground arith

abbrev pub budget : MemoryCache → (ℕ → Bool) → ℕ → Bool
budget mc over used = ltb 0 mc.max_bytes && over used

length-snoc {ℓ} : {A : Type ℓ} (l : List A) (x : A) → length (l ++ x ∷ []) ≡ suc (length l)
length-snoc l x = omega (arith, length-append l (x ∷ []))

length-recent : (l : List Element) → length (map (λ e. e.value) l) ≡ length l
length-recent [] = refl
length-recent (e ∷ l) = omega (arith, length-recent l)

-- The loop, run on any fuel that the list does not exceed, keeps the longest prefix that fits, and
-- counts an eviction for each entry that it drops.
abbrev pub Evicts : (ℕ → Bool) → MemoryCache → MemoryCache → Type 0
Evicts over mc mc' =
    (recent mc' ≡ fit over 0 (recent mc))
    × (mc'.evictions + length (recent mc') ≡ mc.evictions + length (recent mc))

budget-Mono : (mc : MemoryCache) (over : ℕ → Bool) → Mono over → Mono (budget mc over)
budget-Mono mc over mono a b h e = ground (arith, mono a b h)

evict_while_stop :
    (over : ℕ → Bool) (mc : MemoryCache)
    → IsConsistent mc
    → Mono over
    → budget mc over mc.used_bytes ≡ false
    → Evicts (budget mc over) mc mc
evict_while_stop over mc w mono h =
    let within : budget mc over (0 + total_size (recent mc)) ≡ false =
      rw (zero-add, ← total-total_size mc.lru_list, ← w.accounted) h in
    (sym (fit_all (budget mc over) 0 (recent mc) (budget-Mono mc over mono) within), refl)

evict_while_empty :
    (over : ℕ → Bool) (mc : MemoryCache) → mc.lru_list ≡ [] → Evicts (budget mc over) mc mc
unfolding fit
evict_while_empty over mc h = (rw h, refl)

-- One round that evicts, followed by the rest of the loop.
evict_while_round :
    (over : ℕ → Bool) (mc mc' : MemoryCache) (f : Element) (l : List Element)
    → IsConsistent mc
    → mc.lru_list ≡ f ∷ l
    → budget mc over mc.used_bytes ≡ true
    → Evicts (budget mc over) (evict_lru_locked mc) mc'
    → Evicts (budget mc over) mc mc'
evict_while_round over mc mc' f l w e full (kept, count) =
    let (last, split, one) = evict_lru_locked-recent mc f l w e in
    let full' : budget mc over (0 + total_size (recent (evict_lru_locked mc) ++ last ∷ [])) ≡ true =
      rw (zero-add, ← split, ← total-total_size mc.lru_list, ← w.accounted) full in
    (
      kept
          ∙ sym (fit-snoc (budget mc over) 0 (recent (evict_lru_locked mc)) last full')
          ∙ ap (fit (budget mc over) 0) (sym split),
      omega (arith, count, one, ap length split, length-snoc (recent (evict_lru_locked mc)) last),
    )

length-evict_lru_locked :
    (mc : MemoryCache) (f : Element) (l : List Element) (n : ℕ)
    → IsConsistent mc
    → mc.lru_list ≡ f ∷ l
    → length mc.lru_list ≤ suc n
    → length (evict_lru_locked mc).lru_list ≤ n
length-evict_lru_locked mc f l n w e h =
    let (last, split, _) = evict_lru_locked-recent mc f l w e in
    omega (
      arith,
      ap length split,
      length-snoc (recent (evict_lru_locked mc)) last,
      length-recent mc.lru_list,
      length-recent (evict_lru_locked mc).lru_list,
    )

list_cases : (l : List Element) → (l ≡ []) ⊎ ((f : Element) × (r : List Element) × (l ≡ f ∷ r))
list_cases [] = inl refl
list_cases (f ∷ r) = inr (f, r, refl)

guard_nonempty :
    (b : Bool) (l r : List Element) (f : Element) → l ≡ f ∷ r → (b && is_nonempty l) ≡ b
guard_nonempty b l r f e = rw e (ground arith)

guard_empty : (b : Bool) (l : List Element) → l ≡ [] → (b && is_nonempty l) ≡ false
guard_empty b l e = rw e (ground arith)

pub evict_while-Evicts :
    (fuel : ℕ) (over : ℕ → Bool) (mc : MemoryCache)
    → IsConsistent mc
    → Mono over
    → length mc.lru_list ≤ fuel
    → Evicts (budget mc over) mc (evict_while fuel over mc)
unfolding evict_while
evict_while-Evicts zero over mc w mono h = elim (list_cases mc.lru_list) [
  | inl e ↦ evict_while_empty over mc e
  | inr (f, l, e) ↦ absurd (omega (arith, ap length e))
]
evict_while-Evicts (suc fuel) over mc w mono h = elim (list_cases mc.lru_list) [
  | inl e ↦
      rw (guard_empty (budget mc over mc.used_bytes) mc.lru_list e, evict_while)
        (evict_while_empty over mc e)
  | inr (f, l, e) ↦
      rw (guard_nonempty (budget mc over mc.used_bytes) mc.lru_list l f e, evict_while)
        (elim (Bool-cases (budget mc over mc.used_bytes)) [
          | inl full ↦
              rw (full, evict_while)
                (evict_while_round over mc (evict_while fuel over (evict_lru_locked mc)) f l w e
                  full
                  (subst
                    (λ m.
                      Evicts (λ u. ltb 0 m && over u) (evict_lru_locked mc)
                        (evict_while fuel over (evict_lru_locked mc)))
                    (evict_lru_locked-max_bytes mc)
                    (evict_while-Evicts fuel over (evict_lru_locked mc)
                      (evict_lru_locked-IsConsistent mc w) mono
                      (length-evict_lru_locked mc f l fuel w e h))))
          | inr free ↦ rw (free, evict_while) (evict_while_stop over mc w mono free)
        ])
]
