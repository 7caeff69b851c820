-- ===== src/Cache/Reads.antt =====
-- What a read of internal/cache/memory.go finds after each operation: entries under other keys are
-- left, or evicted to make room.
use smart_proxy.Base.{
  ℕ, ◌+◌, ◌≡◌, refl, sym, ap, subst, ◌∙◌, ◌⊎◌, inl, inr, Bool, false, not, ◌&&◌, Option, none, some,
  List, [], ◌∷◌, arith, ltb, nat_eq, text_eq, text_beq, text_beq_iff, Bool-cases, Option-cases,
}
use smart_proxy.Base.Text.{Text, has_prefix}
use smart_proxy.Cache.Memory.{
  MemoryCache, CachedResponse, CacheEntry, get, set, delete_by_prefix, entry_size,
}
use smart_proxy.Cache.Memory.Fit.{recent, fit, without}
use smart_proxy.Cache.Memory.Invariant.{IsConsistent}
use smart_proxy.Cache.Memory.Steps.{get-IsConsistent}
use smart_proxy.Cache.Memory.Spec.{
  delete_by_prefix_lem, find_entry, spec_get, spec_set, get-spec_get, set-spec_set,
}
use smart_proxy.Cache.Isolation.{find_entry-keep, answer, get-answer}

find_entry-without :
    (k j : Text) (l : List CacheEntry)
    → text_beq k j ≡ false
    → find_entry k (without j l) ≡ find_entry k l
unfolding find_entry without
find_entry-without k j [] differ = refl
find_entry-without k j (e ∷ l) differ = ground (
  arith,
  text_beq_iff e.key j,
  text_beq_iff e.key k,
  text_beq_iff k j,
  find_entry-without k j l differ,
)

find_entry-fit :
    (over : ℕ → Bool) (acc : ℕ) (k : Text) (l : List CacheEntry)
    → (find_entry k (fit over acc l) ≡ none) ⊎ (find_entry k (fit over acc l) ≡ find_entry k l)
unfolding find_entry fit
find_entry-fit over acc k [] = inl refl
find_entry-fit over acc k (e ∷ l) = ground (arith, find_entry-fit over (acc + e.size) k l)

find_entry_key :
    (k : Text) (l : List CacheEntry) (f : CacheEntry) → find_entry k l ≡ some f → f.key ≡ k
unfolding find_entry
find_entry_key k [] f h = cc
find_entry_key k (e ∷ l) f h = ground (arith, text_beq_iff e.key k, find_entry_key k l f)

-- A lookup under another key leaves the entry; a write under another key leaves it or evicts it.
pub find_entry-get :
    (mc : MemoryCache) (k j : Text) (now : ℕ)
    → IsConsistent mc
    → text_beq k j ≡ false
    → find_entry k (recent (get mc j now).0) ≡ find_entry k (recent mc)
unfolding spec_get find_entry
find_entry-get mc k j now w differ = elim (Option-cases (find_entry j (recent mc))) [
  | inl e ↦ rw ((get-spec_get mc j now w).0, e, spec_get) refl
  | inr (f, e) ↦
      let named = find_entry_key j (recent mc) f e in
      rw ((get-spec_get mc j now w).0, e, spec_get)
        (ground (
          arith,
          text_beq_iff f.key k,
          text_beq_iff k j,
          find_entry-without k j (recent mc) differ,
        ))
]

pub find_entry-set :
    (mc : MemoryCache) (k j : Text) (resp : CachedResponse) (ttl now : ℕ)
    → IsConsistent mc
    → text_beq k j ≡ false
    → (find_entry k (recent (set mc j resp ttl now)) ≡ none)
      ⊎ (find_entry k (recent (set mc j resp ttl now)) ≡ find_entry k (recent mc))
unfolding spec_set find_entry
find_entry-set mc k j resp ttl now w differ =
    let over : ℕ → Bool = λ used. ltb 0 mc.max_bytes && ltb mc.max_bytes (used + entry_size resp) in
    rw (set-spec_set mc j resp ttl now w) ground (
      arith,
      text_beq_iff j k,
      text_beq_iff k j,
      find_entry-without k j (recent mc) differ,
      find_entry-fit over 0 k (without j (recent mc)),
    )

abbrev pub Kept : Option CacheEntry → Option CacheEntry → Type 0
Kept before after = (after ≡ none) ⊎ (after ≡ before)

pub Kept-trans : {a b c : Option CacheEntry} → Kept a b → Kept b c → Kept a c
Kept-trans p (inl gone) = inl gone
Kept-trans (inl gone) (inr same) = inl (same ∙ gone)
Kept-trans (inr same') (inr same) = inr (same ∙ same')

pub find_entry-delete_by_prefix :
    (mc : MemoryCache) (k prefix : Text)
    → IsConsistent mc
    → has_prefix k prefix ≡ false
    → find_entry k (recent (delete_by_prefix mc prefix)) ≡ find_entry k (recent mc)
find_entry-delete_by_prefix mc k prefix w outside =
    ap (find_entry k) (delete_by_prefix_lem mc prefix w)
    ∙ find_entry-keep (λ j. not (has_prefix j prefix)) k (recent mc)
    ∙ rw outside refl

find_entry-without_self : (k : Text) (l : List CacheEntry) → find_entry k (without k l) ≡ none
unfolding find_entry without
find_entry-without_self k [] = refl
find_entry-without_self k (e ∷ l) = ground (arith, find_entry-without_self k l)

pub find_entry-get_self :
    (mc : MemoryCache) (k : Text) (now : ℕ)
    → IsConsistent mc
    → Kept (find_entry k (recent mc)) (find_entry k (recent (get mc k now).0))
unfolding spec_get find_entry
find_entry-get_self mc k now w = elim (Option-cases (find_entry k (recent mc))) [
  | inl e ↦ rw ((get-spec_get mc k now w).0, e, spec_get) (inl e)
  | inr (f, e) ↦
      let named = find_entry_key k (recent mc) f e in
      rw ((get-spec_get mc k now w).0, e, spec_get)
        (ground (arith, text_beq_iff f.key k, find_entry-without_self k (recent mc)))
]

answer-get_self :
    (mc : MemoryCache) (k : Text) (now : ℕ)
    → IsConsistent mc
    → answer now (find_entry k (recent (get mc k now).0)) ≡ answer now (find_entry k (recent mc))
unfolding spec_get find_entry
answer-get_self mc k now w = elim (Option-cases (find_entry k (recent mc))) [
  | inl e ↦ rw ((get-spec_get mc k now w).0, e, spec_get) (ap (answer now) e)
  | inr (f, e) ↦
      let named = find_entry_key k (recent mc) f e in
      rw ((get-spec_get mc k now w).0, e, spec_get)
        (ground (arith, text_beq_iff f.key k, find_entry-without_self k (recent mc)))
]

-- A lookup does not change what another lookup at the same time finds.
pub get-get :
    (mc : MemoryCache) (k j : Text) (now : ℕ)
    → IsConsistent mc
    → (get (get mc j now).0 k now).1 ≡ (get mc k now).1
get-get mc k j now w =
    let after = get-answer (get mc j now).0 k now (get-IsConsistent mc j now w) in
    let before = get-answer mc k now w in
    elim (Bool-cases (text_beq k j)) [
      | inr other ↦ after ∙ ap (answer now) (find_entry-get mc k j now w other) ∙ sym before
      | inl same ↦
          let named : k ≡ j = (text_beq_iff k j).0 same in
          after
          ∙ subst
              (λ i.
                answer now (find_entry k (recent (get mc i now).0))
                ≡ answer now (find_entry k (recent mc)))
              named (answer-get_self mc k now w)
          ∙ sym before
    ]
