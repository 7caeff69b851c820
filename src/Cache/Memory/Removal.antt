-- ===== src/Cache/Memory/Removal.antt =====
-- Removing, one after the other, the elements that a `range` over the map collected.
use smart_proxy.Base.{
  ◌+◌, ◌≡◌, inl, inr, Bool, [], ◌∷◌, some, arith, nat_eq, text_eq, text_beq_iff, List, sym,
  Bool-cases, ◌∙◌, subst,
}
use smart_proxy.Base.Text.{Text}
use smart_proxy.Base.Dict.{Dict, lookup, IsDistinct}
use smart_proxy.Cache.Memory.{Element, MemoryCache, remove_locked, matching, evict_all, remove_all}
use smart_proxy.Cache.Memory.Recency.{find_key, remove_key, find_key_sound, find_key-remove_key}
use smart_proxy.Cache.Memory.Invariant.{
  IsConsistent, recount-IsConsistent, remove_locked-remove_key, remove_locked-IsConsistent,
}

-- The elements of a list, each still stored when its turn to be removed comes.
abbrev pub Stored : List Element → List Element → Type 0
Stored l [] = Unit
Stored l (e ∷ es) = (find_key e.value.key l ≡ some e) × Stored (remove_key e.value.key l) es

matching-Stored :
    (p : Text → Element → Bool) (d : Dict Text Element) (l : List Element)
    → IsDistinct d
    → ((j : Text) (f : Element) → lookup j d ≡ some f → find_key j l ≡ some f)
    → Stored l (matching p d)
unfolding matching lookup
matching-Stored p [] l w h = tt
matching-Stored p ((k, e) ∷ d) l (new, w) h = elim (Bool-cases (p k e)) [
  | inl e' ↦
      rw (e', matching)
        (
          subst (λ i. find_key i l ≡ some e) (sym key) here,
          rw key (matching-Stored p d (remove_key k l) w gone),
        )
  | inr e' ↦ rw (e', matching) (matching-Stored p d l w later)
]
  where
    here : find_key k l ≡ some e
    here = h k e (ground (arith, text_beq_iff k k))

    key : e.value.key ≡ k
    key = find_key_sound k l here

    later : (j : Text) (f : Element) → lookup j d ≡ some f → find_key j l ≡ some f
    later j f q = h j f (ground (arith, text_beq_iff k j))

    gone : (j : Text) (f : Element) → lookup j d ≡ some f → find_key j (remove_key k l) ≡ some f
    gone j f q = ground (arith, later j f, text_beq_iff k j, find_key-remove_key k j l)

pub remove_all-IsConsistent :
    (es : List Element) (mc : MemoryCache)
    → IsConsistent mc
    → Stored mc.lru_list es
    → IsConsistent (remove_all mc es)
unfolding remove_all
remove_all-IsConsistent [] mc w h = w
remove_all-IsConsistent (e ∷ es) mc w (h, hs) =
    remove_all-IsConsistent es (remove_locked mc e) (remove_locked-IsConsistent mc e.value.key w h)
      (rw (remove_locked-remove_key mc e.value.key w h) hs)

pub evict_all-IsConsistent :
    (es : List Element) (mc : MemoryCache)
    → IsConsistent mc
    → Stored mc.lru_list es
    → IsConsistent (evict_all mc es)
unfolding evict_all
evict_all-IsConsistent [] mc w h = w
evict_all-IsConsistent (e ∷ es) mc w (h, hs) =
    evict_all-IsConsistent es (record (remove_locked mc e) { evictions = mc.evictions + 1 })
      (recount-IsConsistent (remove_locked mc e) _ _ _
        (remove_locked-IsConsistent mc e.value.key w h))
      (rw (remove_locked-remove_key mc e.value.key w h) hs)

pub Stored-elements :
    (mc : MemoryCache) (p : Text → Element → Bool)
    → IsConsistent mc
    → Stored mc.lru_list (matching p mc.entries)
Stored-elements mc p w =
    matching-Stored p mc.entries mc.lru_list w.distinct (λ j f h. sym (w.indexed j) ∙ h)
