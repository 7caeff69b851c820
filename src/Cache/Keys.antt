-- ===== src/Cache/Keys.antt =====
-- internal/cache/keys.go and the suffix filter of internal/cache/middleware.go: the keys of cached
-- answers. `parse_query` stands for url.ParseQuery, which decodes percent signs: `none` is an error.
use smart_proxy.Base.{
  ℕ, zero, suc, ◌≤◌, ◌≡◌, refl, inl, inr, Bool, true, false, ◌&&◌, ◌||◌, Option, none, some, List,
  [], ◌∷◌, ◌++◌, arith, ltb, leb, if◌then◌else◌, ◌==◌, nat_eq, text_eq, Bool-cases, length, keep,
  take, every,
}
use smart_proxy.Base.Text.{Text, text, join}
use smart_proxy.Base.Dict.{Dict, lookup}
use smart_proxy.Base.Sort.{sort_texts}

abbrev key_parts : Text → List Text → List Text
key_parts k [] = []
key_parts k (v ∷ vals) = (k ++ b'=' ∷ v) ∷ key_parts k vals

-- the values of a key of the parsed query
abbrev values_of : Dict Text (List Text) → Text → List Text
values_of params k = elim (lookup k params) [ none ↦ [] | some vals ↦ vals ]

abbrev keys_of : Dict Text (List Text) → List Text
keys_of [] = []
keys_of ((k, vals) ∷ params) = k ∷ keys_of params

-- the loop over the sorted keys
unfoldable pub query_parts : Dict Text (List Text) → List Text → List Text
unfolding sort_texts
query_parts params [] = []
query_parts params (k ∷ ks) = key_parts k (sort_texts (values_of params k)) ++ query_parts params ks

module _ (parse_query : Text → Option (Dict Text (List Text))) where
  unfoldable pub sort_query_params : Text → Text
  unfolding query_parts join
  sort_query_params query = if query == [] then [] else elim (parse_query query) [
    | none ↦ query
    | some params ↦ join (query_parts params (sort_texts (keys_of params))) (text "&")
  ]

  -- what follows the merchant, the method and the path
  abbrev pub key_tail : Text → Text → Text
  key_tail query custom_suffix =
      (if sort_query_params query == [] then [] else b'?' ∷ sort_query_params query)
      ++ (if custom_suffix == [] then [] else b':' ∷ custom_suffix)

  unfoldable pub generate_cache_key : Text → Text → Text → Text → Text → Text
  generate_cache_key merchant_key method path query custom_suffix =
      merchant_key ++ b':' ∷ (method ++ b':' ∷ (path ++ key_tail query custom_suffix))

abbrev pub is_allowed : ℕ → Bool
is_allowed c =
    (leb b'A' c && leb c b'Z')
    || (leb b'a' c && leb c b'z')
    || (leb b'0' c && leb c b'9')
    || c == b'_'
    || c == b'-'

unfoldable pub sanitize_cache_key_suffix : Text → Text
unfolding keep
sanitize_cache_key_suffix s =
    if s == []
    then []
    else (let cleaned = keep is_allowed s in
        if ltb 64 (length cleaned) then take 64 cleaned else cleaned)

length-take-le : (n : ℕ) (s : Text) → length (take n s) ≤ n
length-take-le zero s = omega arith
length-take-le (suc n) [] = omega arith
length-take-le (suc n) (c ∷ s) = omega (arith, length-take-le n s)

every-take : (p : ℕ → Bool) (n : ℕ) (s : Text) → every p s ≡ true → every p (take n s) ≡ true
unfolding every
every-take p zero s h = refl
every-take p (suc n) [] h = refl
every-take p (suc n) (c ∷ s) h = ground (arith, every-take p n s)

every-keep : (p : ℕ → Bool) (s : Text) → every p (keep p s) ≡ true
unfolding every keep
every-keep p [] = refl
every-keep p (c ∷ s) = ground (arith, every-keep p s)

-- Whatever the client sends, the suffix has at most 64 characters, all of them letters, digits, `_` or `-`.
pub sanitize_cache_key_suffix_lem :
    (s : Text)
    → (length (sanitize_cache_key_suffix s) ≤ 64)
      × (every is_allowed (sanitize_cache_key_suffix s) ≡ true)
unfolding sanitize_cache_key_suffix
sanitize_cache_key_suffix_lem s =
    let cleaned = keep is_allowed s in
    let allowed : every is_allowed cleaned ≡ true = every-keep is_allowed s in
    elim (Bool-cases (s == [])) [
      | inl empty ↦ rw (empty, sanitize_cache_key_suffix) (omega arith, unfold every in refl)
      | inr full ↦ elim (Bool-cases (ltb 64 (length cleaned))) [
        | inl long ↦
            rw (full, sanitize_cache_key_suffix, long)
              (length-take-le 64 cleaned, every-take is_allowed 64 cleaned allowed)
        | inr short ↦
            rw (full, sanitize_cache_key_suffix, short) (omega (arith, short_enough short), allowed)
      ]
    ]
  where
    short_enough : ltb 64 (length (keep is_allowed s)) ≡ false → length (keep is_allowed s) ≤ 64
    short_enough e = ground arith
