-- ===== src/Rdt/TokenCache.antt =====
-- internal/rdt/cache.go: restricted data tokens by merchant, generic path and data elements.
use smart_proxy.Base.{
  ℕ, ◌+◌, ◌≤◌, ◌≡◌, refl, sym, ap, ◌∙◌, ◌↔◌, Bool, true, ◌&&◌, Option, none, some, List, [], ◌∷◌,
  arith, ltb, if◌then◌else◌, Eq, ◌==◌, nat_eq, text_eq, text_beq, text_beq_iff, length,
}
use smart_proxy.Base.Text.{Text, text, join}
use smart_proxy.Base.Dict.{Dict, lookup, insert, erase, lookup-insert, lookup-erase}
use smart_proxy.Base.Sort.{sort_texts, sort_texts_perm}
use mathlib.Core.List.{Perm}

pub record CacheKey : Type 0 where
  pub merchant_id : Text
  pub generic_path : Text
  pub data_elements : Text

pub record CacheEntry : Type 0 where
  pub token : Text
  pub expires_at : ℕ

pub record Cache : Type 0 where
  pub entries : Dict CacheKey CacheEntry
  pub safety_margin : ℕ

abbrev pub key_beq : CacheKey → CacheKey → Bool
key_beq a b =
    text_beq a.merchant_id b.merchant_id
    && text_beq a.generic_path b.generic_path
    && text_beq a.data_elements b.data_elements

pub key_beq_iff : (a b : CacheKey) → (key_beq a b ≡ true) ↔ (a ≡ b)
key_beq_iff a b = ground (
  arith,
  text_beq_iff a.merchant_id b.merchant_id,
  text_beq_iff a.generic_path b.generic_path,
  text_beq_iff a.data_elements b.data_elements,
)

instance abbrev pub key_eq : Eq CacheKey
key_eq = record { equal = key_beq; equal_iff = key_beq_iff }

unfoldable pub new_cache : ℕ → Cache
new_cache safety_margin = record { entries = []; safety_margin = safety_margin }

unfoldable pub invalidate : Cache → CacheKey → Cache
invalidate c key = record c { entries = erase key c.entries }

unfoldable pub get : Cache → CacheKey → ℕ → Cache × Option CacheEntry
unfolding invalidate
get c key now = elim (lookup key c.entries) [
  | none ↦ (c, none)
  | some entry ↦
      if ltb entry.expires_at (now + c.safety_margin)
      then (invalidate c key, none)
      else (c, some entry)
]

unfoldable pub set : Cache → CacheKey → CacheEntry → Cache
set c key entry = record c { entries = insert key entry c.entries }

unfoldable pub size : Cache → ℕ
size c = length c.entries

-- the operation of the matcher's table that a key is built from
pub record PiiOperation : Type 0 where
  pub generic_path : Text
  pub method : Text
  pub data_elements : List Text
  pub cacheable : Bool

abbrev pub join_elements : List Text → Text
join_elements [] = []
join_elements (d ∷ ds) = join (sort_texts (d ∷ ds)) (text ",")

unfoldable pub build_cache_key : Text → PiiOperation → CacheKey
build_cache_key merchant_id op = record {
  merchant_id = merchant_id;
  generic_path = op.generic_path;
  data_elements = join_elements op.data_elements;
}

join_elements-sort : (ds : List Text) → join_elements ds ≡ join (sort_texts ds) (text ",")
unfolding sort_texts join
join_elements-sort [] = refl
join_elements-sort (d ∷ ds) = refl

-- The key does not depend on the order in which an operation lists its data elements.
pub build_cache_key_perm :
    (merchant_id : Text) (op : PiiOperation) (elements : List Text)
    → Perm op.data_elements elements
    → build_cache_key merchant_id (record op { data_elements = elements })
      ≡ build_cache_key merchant_id op
unfolding build_cache_key
build_cache_key_perm merchant_id op elements p =
    let same : join_elements elements ≡ join_elements op.data_elements =
      join_elements-sort elements
      ∙ ap (λ l. join l (text ",")) (sym (sort_texts_perm p))
      ∙ sym (join_elements-sort op.data_elements) in
    rw same

-- A token is served only while it outlives the safety margin, and only for its own key: what `Get`
-- returns is the entry stored under the key, and an entry past the margin is gone afterwards.
pub get_lem :
    (c : Cache) (key : CacheKey) (now : ℕ) (entry : CacheEntry)
    → (get c key now).1 ≡ some entry
    → (lookup key c.entries ≡ some entry)
      × (now + c.safety_margin ≤ entry.expires_at)
      × ((get c key now).0 ≡ c)
unfolding get
get_lem c key now entry h = ground arith

-- A read never disturbs other keys, and what it cannot serve it removes.
pub get_miss :
    (c : Cache) (key other : CacheKey) (now : ℕ)
    → (get c key now).1 ≡ none
    → lookup other (get c key now).0.entries
      ≡ (if key == other then none else lookup other c.entries)
unfolding get
get_miss c key other now h = ground (arith, lookup-erase key other c.entries, key_beq_iff key other)

-- A stored token is returned for its key while it outlives the safety margin; every other key reads
-- as before.
pub get-set_live :
    (c : Cache) (key other : CacheKey) (entry : CacheEntry) (now : ℕ)
    → now + c.safety_margin ≤ entry.expires_at
    → (get (set c key entry) other now).1
      ≡ (if key == other then some entry else (get c other now).1)
unfolding get set
get-set_live c key other entry now h = ground (arith, lookup-insert key other entry c.entries)
