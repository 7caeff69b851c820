-- ===== src/Cache/Isolation.antt =====
-- internal/cache/keys.go and internal/cache/invalidation.go together: the keys of different
-- merchants, and the answers that a write removes and leaves.
use smart_proxy.Base.{
  ℕ, ◌≡◌, refl, sym, ap, ◌∙◌, ◌≢◌, inl, inr, Bool, true, false, not, ◌||◌, Option, none, some, List,
  [], ◌∷◌, ◌++◌, arith, ltb, if◌then◌else◌, ◌==◌, nat_eq, text_eq, text_beq, text_beq_iff,
  Bool-cases, Option-cases, length, keep, drop, every,
}
use smart_proxy.Base.Text.{
  Text, text, has_prefix, has_prefix_trans, has_prefix_split, has_prefix-append,
}
use smart_proxy.Base.Dict.{Dict}
use smart_proxy.Base.Clean.{lacks}
use smart_proxy.Cache.Memory.{MemoryCache, CachedResponse, CacheEntry, get, delete_by_prefix}
use smart_proxy.Cache.Memory.Fit.{recent}
use smart_proxy.Cache.Memory.Invariant.{IsConsistent}
use smart_proxy.Cache.Memory.Steps.{delete_by_prefix-IsConsistent}
use smart_proxy.Cache.Memory.Spec.{find_entry, spec_get, get-spec_get, delete_by_prefix_lem}
use smart_proxy.Cache.Keys.{generate_cache_key, key_tail}
use smart_proxy.Cache.Invalidation.{
  invalidate_on_mutation, invalidate_batch_listing_offers, get_prefix, batch_prefix,
  extract_resource_prefix, listing_sku,
}
use mathlib.Core.List.{head-eq_of_cons-eq, tail-eq_of_cons-eq, append_assoc}

-- The same text before two equal separators, when neither part has the separator.
append-separator :
    (c : ℕ) (s t u v : Text)
    → lacks c s ≡ true
    → lacks c t ≡ true
    → s ++ c ∷ u ≡ t ++ c ∷ v
    → (s ≡ t) × (u ≡ v)
unfolding lacks every
append-separator c [] [] u v h k e = (refl, tail-eq_of_cons-eq e)
append-separator c [] (d ∷ t) u v h k e =
    let same : c ≡ d = head-eq_of_cons-eq e in absurd (ground arith)
append-separator c (b ∷ s) [] u v h k e =
    let same : b ≡ c = head-eq_of_cons-eq e in absurd (ground arith)
append-separator c (b ∷ s) (d ∷ t) u v h k e =
    let first : b ≡ d = head-eq_of_cons-eq e in
    let (rest, after) =
      append-separator c s t u v (ground arith) (ground arith) (tail-eq_of_cons-eq e) in
    (rw (first, rest) refl, after)

-- The keys of merchants: a name without a colon, or the fallback that the resolver makes of a token's
-- hash, which has one.
pub data IsMerchant : Text → Type 0 where
  named : (m : Text) → lacks b':' m ≡ true → m ≢ text "tokenhash" → IsMerchant m
  hashed : (h : Text) → lacks b':' h ≡ true → IsMerchant (text "tokenhash:" ++ h)

-- Equal texts that begin with merchants and a colon begin with the same merchant.
pub same_merchant :
    (m n u v : Text)
    → IsMerchant m
    → IsMerchant n
    → m ++ b':' ∷ u ≡ n ++ b':' ∷ v
    → (m ≡ n) × (u ≡ v)
same_merchant m n u v (named _ h _) (named _ k _) e = append-separator b':' m n u v h k e
same_merchant m _ u v (named _ h other) (hashed t k) e = absurd (
    other
      (append-separator b':' m (text "tokenhash") u (t ++ b':' ∷ v) h (unfold lacks every in refl)
        e).0)
same_merchant _ n u v (hashed t k) (named _ h other) e = absurd (
    other (
      sym
        (append-separator b':' (text "tokenhash") n (t ++ b':' ∷ u) v (unfold lacks every in refl) h
          e).0))
same_merchant _ _ u v (hashed s h) (hashed t k) e =
    let rest : s ++ b':' ∷ u ≡ t ++ b':' ∷ v =
      (append-separator b':' (text "tokenhash") (text "tokenhash") (s ++ b':' ∷ u) (t ++ b':' ∷ v)
        (unfold lacks every in refl) (unfold lacks every in refl) e).1 in
    let (hashes, after) = append-separator b':' s t u v h k rest in
    (ap (λ x. text "tokenhash:" ++ x) hashes, after)

-- Keys of different merchants differ, whatever else is in them: where the merchants are named without
-- a colon or by the hash of a token, and no method has a colon, equal keys are of one merchant and one
-- method.
pub generate_cache_key_isolates :
    (parse_query : Text → Option (Dict Text (List Text)))
    (m n method other path path' query query' suffix suffix' : Text)
    → IsMerchant m
    → IsMerchant n
    → lacks b':' method ≡ true
    → lacks b':' other ≡ true
    → generate_cache_key parse_query m method path query suffix
      ≡ generate_cache_key parse_query n other path' query' suffix'
    → (m ≡ n) × (method ≡ other)
unfolding generate_cache_key
generate_cache_key_isolates parse_query m n method other path path' query query' suffix suffix' a b
      c d e =
    let (merchants, rests) = same_merchant m n _ _ a b e in
    (merchants, (append-separator b':' method other _ _ c d rests).0)

-- What a read finds after a removal by prefix, for keys inside and outside the prefix.
pub find_entry-keep :
    (p : Text → Bool) (k : Text) (l : List CacheEntry)
    → find_entry k (keep (λ e. p e.key) l) ≡ (if p k then find_entry k l else none)
unfolding find_entry keep
find_entry-keep p k [] = ground arith
find_entry-keep p k (e ∷ l) = elim (Bool-cases (text_beq e.key k)) [
  | inl same ↦
      let named : e.key ≡ k = (text_beq_iff e.key k).0 same in
      let tests : p e.key ≡ p k = ap p named in ground (arith, find_entry-keep p k l)
  | inr other ↦ ground (arith, find_entry-keep p k l)
]

-- The answer of a read is a function of the entry that the contract finds.
abbrev pub answer : ℕ → Option CacheEntry → Option CachedResponse
answer now none = none
answer now (some e) = if ltb e.expires_at now then none else some e.response

pub get-answer :
    (mc : MemoryCache) (k : Text) (now : ℕ)
    → IsConsistent mc
    → (get mc k now).1 ≡ answer now (find_entry k (recent mc))
unfolding spec_get
get-answer mc k now w = elim (Option-cases (find_entry k (recent mc))) [
  | inl e ↦ (get-spec_get mc k now w).1 ∙ rw (e, spec_get) refl
  | inr (f, e) ↦ (get-spec_get mc k now w).1 ∙ rw (e, spec_get) (ground arith)
]

pub delete_by_prefix-answer :
    (mc : MemoryCache) (prefix k : Text) (now : ℕ)
    → IsConsistent mc
    → (get (delete_by_prefix mc prefix) k now).1
      ≡ (if has_prefix k prefix then none else (get mc k now).1)
delete_by_prefix-answer mc prefix k now w =
    let found = find_entry-keep (λ j. not (has_prefix j prefix)) k (recent mc) in
    get-answer (delete_by_prefix mc prefix) k now (delete_by_prefix-IsConsistent mc prefix w)
    ∙ ap (λ l. answer now (find_entry k l)) (delete_by_prefix_lem mc prefix w)
    ∙ ap (answer now) found
    ∙ elim (Bool-cases (has_prefix k prefix)) [
      | inl inside ↦ rw inside refl
      | inr outside ↦ rw outside (sym (get-answer mc k now w))
    ]

-- A key of one merchant is under no prefix of another's.
pub other_merchant :
    (m n u v : Text)
    → IsMerchant m
    → IsMerchant n
    → m ≢ n
    → has_prefix (n ++ b':' ∷ v) (m ++ b':' ∷ u) ≡ false
other_merchant m n u v h k differ = elim (Bool-cases (has_prefix (n ++ b':' ∷ v) (m ++ b':' ∷ u))) [
  | inl inside ↦
      let rest = drop (length (m ++ b':' ∷ u)) (n ++ b':' ∷ v) in
      let split_up : n ++ b':' ∷ v ≡ m ++ b':' ∷ (u ++ rest) =
        has_prefix_split (n ++ b':' ∷ v) (m ++ b':' ∷ u) inside ∙ append_assoc m (b':' ∷ u) rest in
      absurd (differ (sym (same_merchant n m v (u ++ rest) k h split_up).0))
  | inr outside ↦ outside
]

-- A write of one merchant leaves every answer of another as it was: where both are
-- named without a colon or by the hash of a token, reads of the other's keys, in a cache whose parts agree, give the same before and after.
pub invalidate_on_mutation_isolates :
    (mc : MemoryCache) (m n method path rest : Text) (now : ℕ)
    → IsConsistent mc
    → IsMerchant m
    → IsMerchant n
    → m ≢ n
    → (get (invalidate_on_mutation mc m method path) (n ++ b':' ∷ rest) now).1
      ≡ (get mc (n ++ b':' ∷ rest) now).1
unfolding invalidate_on_mutation invalidate_batch_listing_offers
invalidate_on_mutation_isolates mc m n method path rest now w h k differ =
    let key = n ++ b':' ∷ rest in
    let mc' = delete_by_prefix mc (get_prefix m path) in
    let once : (get mc' key now).1 ≡ (get mc key now).1 =
      delete_by_prefix-answer mc (get_prefix m path) key now w
      ∙ rw (other_merchant m n (text "GET:" ++ extract_resource_prefix path) rest h k differ)
          refl in
    let w' = delete_by_prefix-IsConsistent mc (get_prefix m path) w in
    elim (Bool-cases (method == text "GET")) [
      | inl reading ↦ rw (reading, invalidate_on_mutation) refl
      | inr writing ↦ elim (Bool-cases (method == text "PUT" || method == text "PATCH")) [
        | inr plain ↦ rw (writing, invalidate_on_mutation, plain) once
        | inl replacing ↦ elim (Option-cases (listing_sku path)) [
          | inl unlisted ↦ rw (writing, invalidate_on_mutation, replacing, unlisted) once
          | inr (sku, listed) ↦
              rw (writing, invalidate_on_mutation, replacing, listed)
                (delete_by_prefix-answer mc' (batch_prefix m sku) key now w'
                  ∙ rw
                      (other_merchant m n
                        (text "BATCH:/batches/products/pricing/v0/listingOffers:listingOffers:"
                          ++ (sku ++ text ":"))
                        rest h k differ)
                      once)
        ]
      ]
    ]

has_prefix-same : (s u v : Text) → has_prefix (s ++ u) (s ++ v) ≡ has_prefix u v
unfolding has_prefix
has_prefix-same [] u v = refl
has_prefix-same (c ∷ s) u v = ground (arith, has_prefix-same s u v)

-- After a request that is no GET, in a cache whose parts agree, no GET of the same merchant for a path
-- that begins with the code's prefix of the written path finds an answer, whatever its query and suffix.
pub invalidate_on_mutation_matching :
    (parse_query : Text → Option (Dict Text (List Text))) (mc : MemoryCache)
    (m method path other query suffix : Text) (now : ℕ)
    → IsConsistent mc
    → method ≢ text "GET"
    → has_prefix other (extract_resource_prefix path) ≡ true
    → (get
        (invalidate_on_mutation mc m method path)
        (generate_cache_key parse_query m (text "GET") other query suffix)
        now).1
      ≡ none
unfolding invalidate_on_mutation invalidate_batch_listing_offers generate_cache_key
invalidate_on_mutation_matching parse_query mc m method path other query suffix now w written
      under =
    let key = generate_cache_key parse_query m (text "GET") other query suffix in
    let mc' = delete_by_prefix mc (get_prefix m path) in
    let tail = key_tail parse_query query suffix in
    let inside : has_prefix key (get_prefix m path) ≡ true =
      has_prefix-same m (text ":GET:" ++ (other ++ tail))
        (text ":GET:" ++ extract_resource_prefix path)
      ∙ has_prefix-same (text ":GET:") (other ++ tail) (extract_resource_prefix path)
      ∙ has_prefix_trans (other ++ tail) other (extract_resource_prefix path)
          (has_prefix-append other tail) under in
    let once : (get mc' key now).1 ≡ none =
      delete_by_prefix-answer mc (get_prefix m path) key now w ∙ rw inside refl in
    let w' = delete_by_prefix-IsConsistent mc (get_prefix m path) w in
    let writing : (method == text "GET") ≡ false =
      ground (arith, text_beq_iff method (text "GET")) in
    elim (Bool-cases (method == text "PUT" || method == text "PATCH")) [
      | inr plain ↦ rw (writing, invalidate_on_mutation, plain) once
      | inl replacing ↦ elim (Option-cases (listing_sku path)) [
        | inl unlisted ↦ rw (writing, invalidate_on_mutation, replacing, unlisted) once
        | inr (sku, listed) ↦
            rw (writing, invalidate_on_mutation, replacing, listed)
              (delete_by_prefix-answer mc' (batch_prefix m sku) key now w' ∙ ground (arith, once))
      ]
    ]
