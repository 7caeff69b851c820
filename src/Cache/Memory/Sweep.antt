-- ===== src/Cache/Memory/Sweep.antt =====
-- What the two-pass deletions of internal/cache/memory.go leave: the elements that fail the test,
-- in their order, whatever the order in which the `range` over the map ran.
use smart_proxy.Cache.Memory.Removal.{Stored}
use smart_proxy.Cache.Memory.Invariant.{
  IsConsistent, remove_locked-remove_key, remove_locked-IsConsistent, recount-IsConsistent,
}
use smart_proxy.Cache.Memory.Recency.{find_key, remove_key, Linked, find_key_sound}
use smart_proxy.Base.{
  ◌+◌, ◌≡◌, refl, sym, ap, ◌∙◌, Bool, true, false, not, ◌||◌, none, some, List, [], ◌∷◌, arith,
  ◌==◌, nat_eq, text_eq, text_beq_iff, All, keep, All-map_rule,
}
use smart_proxy.Base.Text.{Text}
use smart_proxy.Base.Dict.{Dict, lookup, IsDistinct}
use smart_proxy.Cache.Memory.{
  MemoryCache, Dict, evict_all, matching, Text, lookup, remove_all, Element, remove_locked,
}

pub remove_keys : List Element → List Element → List Element
remove_keys [] l = l
remove_keys (e ∷ es) l = remove_keys es (remove_key e.value.key l)

mem_key : Text → List Element → Bool
mem_key k [] = false
mem_key k (e ∷ es) = e.value.key == k || mem_key k es

keep-remove_key :
    (e : Element) (es l : List Element)
    → keep (λ x. not (mem_key x.value.key es)) (remove_key e.value.key l)
      ≡ keep (λ x. not (mem_key x.value.key (e ∷ es))) l
unfolding remove_key keep mem_key
keep-remove_key e es [] = refl
keep-remove_key e es (f ∷ l) = ground (
  arith,
  text_beq_iff e.value.key f.value.key,
  text_beq_iff f.value.key e.value.key,
  keep-remove_key e es l,
)

keep_every : (l : List Element) → keep (λ x. true) l ≡ l
unfolding keep
keep_every [] = refl
keep_every (e ∷ l) = ap (◌∷◌ e) (keep_every l)

remove_keys-keep :
    (es l : List Element) → remove_keys es l ≡ keep (λ x. not (mem_key x.value.key es)) l
unfolding remove_keys mem_key
remove_keys-keep [] l = sym (keep_every l)
remove_keys-keep (e ∷ es) l =
    remove_keys-keep es (remove_key e.value.key l) ∙ keep-remove_key e es l

abbrev Keyed : Dict Text Element → Type 0
Keyed = All (λ q. q.1.value.key ≡ q.0)

mem_key_absent :
    (p : Text → Element → Bool) (k : Text) (d : Dict Text Element)
    → Keyed d
    → lookup k d ≡ none
    → mem_key k (matching p d) ≡ false
unfolding matching mem_key lookup
mem_key_absent p k [] w h = refl
mem_key_absent p k ((j, f) ∷ d) w h = ground (arith, text_beq_iff j k, mem_key_absent p k d w.1)

mem_key-matching :
    (p : Text → Element → Bool) (k : Text) (d : Dict Text Element) {e : Element}
    → Keyed d
    → IsDistinct d
    → lookup k d ≡ some e
    → mem_key k (matching p d) ≡ p k e
unfolding matching mem_key lookup
mem_key-matching p k [] w v h = cc
mem_key-matching p k ((j, f) ∷ d) {e} w v h = ground (
  arith,
  text_beq_iff j k,
  text_beq_iff f.value.key k,
  mem_key_absent p k d w.1,
  mem_key-matching p k d {e = e} w.1 v.1,
)

Keyed-of_lookup :
    (d : Dict Text Element)
    → IsDistinct d
    → ((j : Text) (f : Element) → lookup j d ≡ some f → f.value.key ≡ j)
    → Keyed d
unfolding lookup
Keyed-of_lookup [] w h = tt
Keyed-of_lookup ((k, e) ∷ d) (new, w) h = (
  h k e (ground (arith, text_beq_iff k k)),
  Keyed-of_lookup d w (λ j f q. h j f (ground (arith, text_beq_iff k j))),
)

keep_congr :
    (p q : Element → Bool) (l : List Element) → All (λ e. p e ≡ q e) l → keep p l ≡ keep q l
unfolding keep
keep_congr p q [] h = refl
keep_congr p q (e ∷ l) (h, hs) = rw (h, keep_congr p q l hs)

-- Each element of a linked list is the one that a search for its key finds.
found_self : (l : List Element) → Linked l → All (λ e. find_key e.value.key l ≡ some e) l
unfolding find_key
found_self [] w = tt
found_self (e ∷ l) (fresh, _, w) = (
  ground (arith, text_beq_iff e.value.key e.value.key),
  All-map_rule l (λ x h. ground (arith, text_beq_iff e.value.key x.value.key)) (found_self l w),
)

-- The list without every element whose map entry passes the test.
pub remove_keys-matching :
    (mc : MemoryCache) (p : Text → Element → Bool)
    → IsConsistent mc
    → remove_keys (matching p mc.entries) mc.lru_list
      ≡ keep (λ e. not (p e.value.key e)) mc.lru_list
remove_keys-matching mc p w =
    let keyed =
      Keyed-of_lookup mc.entries w.distinct
        (λ j f q. find_key_sound j mc.lru_list (sym (w.indexed j) ∙ q)) in
    remove_keys-keep (matching p mc.entries) mc.lru_list
    ∙ keep_congr (λ x. not (mem_key x.value.key (matching p mc.entries)))
        (λ e. not (p e.value.key e)) mc.lru_list
        (All-map_rule mc.lru_list
          (λ e h. ap not (
            mem_key-matching p e.value.key mc.entries keyed w.distinct (w.indexed e.value.key ∙ h)))
          (found_self mc.lru_list w.linked))

pub remove_all-remove_keys :
    (es : List Element) (mc : MemoryCache)
    → IsConsistent mc
    → Stored mc.lru_list es
    → (remove_all mc es).lru_list ≡ remove_keys es mc.lru_list
unfolding remove_all remove_keys
remove_all-remove_keys [] mc w h = refl
remove_all-remove_keys (e ∷ es) mc w (h, hs) =
    let same = remove_locked-remove_key mc e.value.key w h in
    remove_all-remove_keys es (remove_locked mc e) (remove_locked-IsConsistent mc e.value.key w h)
      (rw same hs)
    ∙ ap (remove_keys es) same

remove_locked-max_bytes :
    (mc : MemoryCache) (e : Element) → (remove_locked mc e).max_bytes ≡ mc.max_bytes
unfolding remove_locked
remove_locked-max_bytes mc e = refl

pub evict_all-remove_keys :
    (es : List Element) (mc : MemoryCache)
    → IsConsistent mc
    → Stored mc.lru_list es
    → ((evict_all mc es).lru_list ≡ remove_keys es mc.lru_list)
      × ((evict_all mc es).max_bytes ≡ mc.max_bytes)
unfolding evict_all remove_keys
evict_all-remove_keys [] mc w h = (refl, refl)
evict_all-remove_keys (e ∷ es) mc w (h, hs) =
    let same = remove_locked-remove_key mc e.value.key w h in
    let rest =
      evict_all-remove_keys es (record (remove_locked mc e) { evictions = mc.evictions + 1 })
        (recount-IsConsistent (remove_locked mc e) _ _ _
          (remove_locked-IsConsistent mc e.value.key w h))
        (rw same hs) in
    (rest.0 ∙ ap (remove_keys es) same, rest.1 ∙ remove_locked-max_bytes mc e)
