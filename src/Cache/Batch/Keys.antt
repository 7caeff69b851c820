-- ===== src/Cache/Batch/Keys.antt =====
-- The keys of internal/cache/batch.go: which endpoint a path is, and which element a key names.
use smart_proxy.Base.{
  take-append, drop-append, ℕ, ◌≡◌, refl, sym, ap, ◌∙◌, inl, inr, Bool, true, false, not, ◌&&◌,
  some, List, [], ◌∷◌, ◌++◌, arith, nat_eq, text_eq, text_beq, text_beq_iff, Bool-cases, length,
  every, take,
}
use smart_proxy.Base.Text.{Text, has_prefix, index, has_prefix-append}
use smart_proxy.Base.Dict.{Dict, lookup}
use smart_proxy.Base.Sort.{sort_texts_perm}
use smart_proxy.Base.Clean.{lacks}
use smart_proxy.Cache.Batch.{
  BatchEndpointConfig, batch_endpoint_registry, first_config, lookup_batch_config,
  extract_path_segment, extract_competitive_summary_key,
}
use mathlib.Core.List.{Perm}
use mathlib.Core.Bool.{false≢true}

-- Of two prefixes of a text one is a prefix of the other.
prefixes_meet :
    (s p q : Text)
    → has_prefix s p ≡ true
    → has_prefix s q ≡ true
    → has_prefix p q ≡ false
    → has_prefix q p ≡ true
unfolding has_prefix
prefixes_meet s [] q h k n = refl
prefixes_meet s (c ∷ p) [] h k n = cc
prefixes_meet [] (c ∷ p) (d ∷ q) h k n = cc
prefixes_meet (b ∷ s) (c ∷ p) (d ∷ q) h k n = ground (arith, prefixes_meet s p q)

abbrev apart : Text → Text → Bool
apart p q = not (has_prefix p q) && not (has_prefix q p)

separate : Dict Text BatchEndpointConfig → Bool
separate [] = true
separate ((p, cfg) ∷ registry) = every (λ kv. apart p kv.0) registry && separate registry

other_prefix :
    (path p q : Text) → has_prefix path p ≡ true → has_prefix path q ≡ true → apart p q ≡ false
other_prefix path p q h k = elim (Bool-cases (has_prefix p q)) [
  | inl e ↦ rw e refl
  | inr e ↦ rw (e, prefixes_meet path p q h k e) refl
]

apart_of :
    (registry : Dict Text BatchEndpointConfig) (q p : Text) (cfg : BatchEndpointConfig)
    → every (λ kv. apart q kv.0) registry ≡ true
    → lookup p registry ≡ some cfg
    → apart q p ≡ true
unfolding every lookup
apart_of [] q p cfg h found = cc
apart_of ((k, c) ∷ registry) q p cfg h found =
    ground (arith, text_beq_iff k p, apart_of registry q p cfg)

first_config-lookup :
    (registry : Dict Text BatchEndpointConfig) (path p : Text) (cfg : BatchEndpointConfig)
    → separate registry ≡ true
    → lookup p registry ≡ some cfg
    → has_prefix path p ≡ true
    → first_config path registry ≡ some cfg
unfolding separate lookup first_config
first_config-lookup [] path p cfg sep found inside = cc
first_config-lookup ((q, c) ∷ registry) path p cfg sep found inside =
    elim (Bool-cases (text_beq q p)) [
      | inl same ↦
          let named : q ≡ p = (text_beq_iff q p).0 same in
          let here : has_prefix path q ≡ true = rw named inside in ground arith
      | inr other ↦ elim (Bool-cases (has_prefix path q)) [
        | inr elsewhere ↦
            rw (elsewhere, first_config)
              (first_config-lookup registry path p cfg (ground arith) (ground arith) inside)
        | inl here ↦
            let listed : lookup p registry ≡ some cfg = ground arith in
            let alone : apart q p ≡ true = apart_of registry q p cfg (ground arith) listed in
            absurd (false≢true (sym (other_prefix path q p here inside) ∙ alone))
      ]
    ]

registry_separate : separate batch_endpoint_registry ≡ true
unfolding separate every has_prefix
registry_separate = refl

-- The registry is a map that is searched in no fixed order, and the order does not matter: a path under
-- a registered prefix gets the configuration of that prefix, whichever it is.
lookup_batch_config_lem :
    (path prefix : Text) (cfg : BatchEndpointConfig)
    → lookup prefix batch_endpoint_registry ≡ some cfg
    → has_prefix path prefix ≡ true
    → lookup_batch_config path ≡ some cfg
unfolding lookup_batch_config
lookup_batch_config_lem path prefix cfg found inside =
    first_config-lookup batch_endpoint_registry path prefix cfg registry_separate found inside

-- The key of a competitive summary does not depend on the order in which the client lists the data.
pub extract_competitive_summary_key-perm :
    (asin marketplace_id : Text) (included reordered : List Text)
    → Perm included reordered
    → extract_competitive_summary_key
        (record { asin = asin; marketplace_id = marketplace_id; included_data = included })
      ≡ extract_competitive_summary_key
          (record { asin = asin; marketplace_id = marketplace_id; included_data = reordered })
unfolding extract_competitive_summary_key
extract_competitive_summary_key-perm asin marketplace_id included reordered p =
    rw (sort_texts_perm p) refl

index-separator :
    (c : ℕ) (s t more : Text)
    → lacks c s ≡ true
    → index (s ++ (c ∷ t ++ more)) (c ∷ t) ≡ some (length s)
unfolding index lacks every has_prefix
index-separator c [] t more h = ground (arith, has_prefix-append t more)
index-separator c (d ∷ s) t more h = ground (arith, index-separator c s t more)

-- The part of a URI between a prefix and a suffix that begins with a slash is found again, whatever
-- follows: where the part has no slash, the code cuts out that part and nothing else.
pub extract_path_segment_lem :
    (prefix part tail more : Text)
    → lacks b'/' part ≡ true
    → extract_path_segment (prefix ++ (part ++ (b'/' ∷ tail ++ more))) prefix (b'/' ∷ tail) ≡ part
unfolding extract_path_segment text_beq
extract_path_segment_lem prefix part tail more h =
    let rest = part ++ (b'/' ∷ tail ++ more) in
    rw (has_prefix-append prefix rest, drop-append prefix rest)
      (rw (index-separator b'/' part tail more h, extract_path_segment)
        (ap (take (length part)) (drop-append prefix rest)
          ∙ take-append part (b'/' ∷ tail ++ more)))
