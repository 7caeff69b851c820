-- ===== src/Cache/Middleware/Own.antt =====
-- What a handler does to the cache on behalf of one merchant: lookups, writes and removals by prefix, each
-- under the merchant's own keys.
use smart_proxy.Cache.Reads.{
  find_entry-get, find_entry-set, Kept, Kept-trans, find_entry-delete_by_prefix,
  find_entry-get_self,
}
use smart_proxy.Base.{
  ℕ, ◌≡◌, refl, sym, ap, subst, ◌∙◌, ◌≢◌, ◌⊎◌, inl, inr, false, not, Option, none, some, ◌∷◌, ◌++◌,
  arith, nat_eq, text_eq, text_beq, text_beq_iff, Bool-cases,
}
use smart_proxy.Base.Text.{Text, has_prefix}
use smart_proxy.Cache.Memory.{
  MemoryCache, CachedResponse, CacheEntry, get, set, delete_by_prefix, new_entry,
}
use smart_proxy.Cache.Memory.Fit.{recent}
use smart_proxy.Cache.Memory.Invariant.{IsConsistent}
use smart_proxy.Cache.Memory.Steps.{get-IsConsistent, delete_by_prefix-IsConsistent}
use smart_proxy.Cache.Memory.Writes.{set-IsConsistent}
use smart_proxy.Cache.Memory.Spec.{delete_by_prefix_lem, find_entry, spec_set, set-spec_set}
use smart_proxy.Cache.Isolation.{
  find_entry-keep, IsMerchant, same_merchant, answer, get-answer, other_merchant,
}

-- `c` comes from `mc` by such calls, and what they write satisfies `P`
pub data Own (m : Text) (P : CachedResponse → Type 0) (mc : MemoryCache)
    : MemoryCache → Type 0 where
  untouched : Own m P mc mc
  looked :
      {c : MemoryCache} (rest : Text) (now : ℕ)
      → Own m P mc c
      → Own m P mc (get c (m ++ b':' ∷ rest) now).0
  stored :
      {c : MemoryCache} (rest : Text) (resp : CachedResponse) (ttl now : ℕ)
      → P resp
      → Own m P mc c
      → Own m P mc (set c (m ++ b':' ∷ rest) resp ttl now)
  dropped :
      {c : MemoryCache} (rest : Text)
      → Own m P mc c
      → Own m P mc (delete_by_prefix c (m ++ b':' ∷ rest))

pub Own-IsConsistent :
    {m : Text} {P : CachedResponse → Type 0} {mc c : MemoryCache}
    → IsConsistent mc
    → Own m P mc c
    → IsConsistent c
Own-IsConsistent w untouched = w
Own-IsConsistent w (looked rest now o) = get-IsConsistent _ _ now (Own-IsConsistent w o)
Own-IsConsistent w (stored rest resp ttl now p o) =
    set-IsConsistent _ _ resp ttl now (Own-IsConsistent w o)
Own-IsConsistent w (dropped rest o) = delete_by_prefix-IsConsistent _ _ (Own-IsConsistent w o)

other_key :
    (m n rest own : Text)
    → IsMerchant m
    → IsMerchant n
    → m ≢ n
    → text_beq (n ++ b':' ∷ rest) (m ++ b':' ∷ own) ≡ false
other_key m n rest own h k differ =
    elim (Bool-cases (text_beq (n ++ b':' ∷ rest) (m ++ b':' ∷ own))) [
      | inl same ↦
          absurd (differ (sym (same_merchant n m rest own k h ((text_beq_iff _ _).0 same)).0))
      | inr other ↦ other
    ]

module _ {m n : Text} {P : CachedResponse → Type 0} {mc : MemoryCache} (rest : Text)
    (w : IsConsistent mc) (h : IsMerchant m) (k : IsMerchant n) (differ : m ≢ n) where
  -- Another merchant's entry is as it was, or evicted.
  pub Own-find_entry :
      {c : MemoryCache}
      → Own m P mc c
      → Kept (find_entry (n ++ b':' ∷ rest) (recent mc)) (find_entry (n ++ b':' ∷ rest) (recent c))
  Own-find_entry untouched = inr refl
  Own-find_entry (looked {c} own now o) = Kept-trans (Own-find_entry o) (
      inr (
        find_entry-get c (n ++ b':' ∷ rest) _ now (Own-IsConsistent w o)
          (other_key m n rest own h k differ)))
  Own-find_entry (stored {c} own resp ttl now p o) = Kept-trans (Own-find_entry o) (
      find_entry-set c (n ++ b':' ∷ rest) _ resp ttl now (Own-IsConsistent w o)
        (other_key m n rest own h k differ))
  Own-find_entry (dropped {c} own o) = Kept-trans (Own-find_entry o) (
      inr (
        find_entry-delete_by_prefix c (n ++ b':' ∷ rest) _ (Own-IsConsistent w o)
          (other_merchant m n own rest h k differ)))

  -- What is done for one merchant shows another nothing that the other could not read before.
  pub Own_isolates :
      (c : MemoryCache) (now : ℕ)
      → Own m P mc c
      → ((get c (n ++ b':' ∷ rest) now).1 ≡ none)
        ⊎ ((get c (n ++ b':' ∷ rest) now).1 ≡ (get mc (n ++ b':' ∷ rest) now).1)
  Own_isolates c now o =
      let key = n ++ b':' ∷ rest in
      let after = get-answer c key now (Own-IsConsistent w o) in
      elim (Own-find_entry o) [
        | inl gone ↦ inl (after ∙ ap (answer now) gone)
        | inr same ↦ inr (after ∙ ap (answer now) same ∙ sym (get-answer mc key now w))
      ]

-- An entry is as it was, or evicted, or was written with a response that satisfies `P`.
abbrev Origin : (CachedResponse → Type 0) → Option CacheEntry → Option CacheEntry → Type 0
Origin P before after = Kept before after ⊎ ((e : CacheEntry) × P e.response × (after ≡ some e))

Kept-Origin :
    (P : CachedResponse → Type 0) {a b c : Option CacheEntry}
    → Origin P a b
    → Kept b c
    → Origin P a c
Kept-Origin P o (inl gone) = inl (inl gone)
Kept-Origin P (inl kept) (inr same) = inl (Kept-trans kept (inr same))
Kept-Origin P (inr (e, p, written)) (inr same) = inr (e, p, same ∙ written)

module _ {m : Text} {P : CachedResponse → Type 0} {mc : MemoryCache} (k : Text)
    (w : IsConsistent mc) where
  pub Own-Origin :
      {c : MemoryCache}
      → Own m P mc c
      → Origin P (find_entry k (recent mc)) (find_entry k (recent c))
  unfolding find_entry spec_set
  Own-Origin untouched = inl (inr refl)
  Own-Origin (looked {c} own now o) = elim (Bool-cases (text_beq k (m ++ b':' ∷ own))) [
    | inl same ↦
        let named : k ≡ m ++ b':' ∷ own = (text_beq_iff _ _).0 same in
        Kept-Origin P (Own-Origin o) (
          subst (λ j. Kept (find_entry k (recent c)) (find_entry k (recent (get c j now).0))) named
            (find_entry-get_self c k now (Own-IsConsistent w o)))
    | inr other ↦
        Kept-Origin P (Own-Origin o) (inr (find_entry-get c k _ now (Own-IsConsistent w o) other))
  ]
  Own-Origin (stored {c} own resp ttl now p o) = elim (Bool-cases (text_beq k (m ++ b':' ∷ own))) [
    | inl same ↦
        let named : k ≡ m ++ b':' ∷ own = (text_beq_iff _ _).0 same in
        inr (
          new_entry (m ++ b':' ∷ own) resp ttl now,
          p,
          rw (set-spec_set c (m ++ b':' ∷ own) resp ttl now (Own-IsConsistent w o))
              (ground (arith, text_beq_iff (m ++ b':' ∷ own) k)),
        )
    | inr other ↦
        Kept-Origin P (Own-Origin o)
          (find_entry-set c k _ resp ttl now (Own-IsConsistent w o) other)
  ]
  Own-Origin (dropped {c} own o) = elim (Bool-cases (has_prefix k (m ++ b':' ∷ own))) [
    | inl inside ↦ inl (
        inl (
          ap (find_entry k) (delete_by_prefix_lem c _ (Own-IsConsistent w o))
          ∙ find_entry-keep (λ j. not (has_prefix j (m ++ b':' ∷ own))) k (recent c)
          ∙ rw inside refl))
    | inr outside ↦
        Kept-Origin P (Own-Origin o)
          (inr (find_entry-delete_by_prefix c k _ (Own-IsConsistent w o) outside))
  ]

  -- so what a read finds was there to be read before, or satisfies `P`
  pub Own_origin :
      (c : MemoryCache) (now : ℕ) (resp : CachedResponse)
      → Own m P mc c
      → (get c k now).1 ≡ some resp
      → ((get mc k now).1 ≡ some resp) ⊎ P resp
  Own_origin c now resp o found =
      let after : answer now (find_entry k (recent c)) ≡ some resp =
        sym (get-answer c k now (Own-IsConsistent w o)) ∙ found in
      elim (Own-Origin o) [
        | inl (inl gone) ↦ absurd (ground (arith, after, gone))
        | inl (inr same) ↦ inl (get-answer mc k now w ∙ ap (answer now) (sym same) ∙ after)
        | inr (e, p, written) ↦ let read : e.response ≡ resp = ground arith in inr (subst P read p)
      ]
