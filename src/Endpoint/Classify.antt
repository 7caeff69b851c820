-- ===== src/Endpoint/Classify.antt =====
-- internal/endpoint/classify.go: the canonical endpoint pattern of a request path.
use smart_proxy.Base.{
  ℕ, ◌+◌, ◌≡◌, refl, ap, Bool, true, false, ◌&&◌, ◌||◌, Option, none, some, List, [], ◌∷◌, ◌++◌,
  arith, if◌then◌else◌, ◌==◌, nat_eq, text_eq, text_beq, text_beq_iff, every,
}
use smart_proxy.Base.Text.{
  Text, text, has_prefix, has_suffix, strip_query, trim_right, drop_front, clean_path,
  clean_path-query, count_byte,
}
use smart_proxy.Endpoint.Patterns.{EndpointPattern, endpoint_patterns}

-- the tests of the loop's body
unfoldable pub matches : EndpointPattern → Text → ℕ → Bool
matches e path segment_count =
    has_prefix path e.prefix
    && segment_count == e.segments
    && (e.suffix == [] || has_suffix path (text "/" ++ e.suffix))

unfoldable pub first_pattern : List EndpointPattern → Text → ℕ → Option EndpointPattern
unfolding matches
first_pattern [] path segment_count = none
first_pattern (e ∷ es) path segment_count =
    if matches e path segment_count then some e else first_pattern es path segment_count

abbrev pub segment_count_of : Text → ℕ
segment_count_of path = count_byte path b'/' + 1

-- the loop and its two returns, on the cleaned path
unfoldable pub classify_cleaned : Text → Text × Bool
unfolding first_pattern count_byte
classify_cleaned path = elim (first_pattern endpoint_patterns path (segment_count_of path)) [
  | none ↦ (path, false)
  | some e ↦ (e.pattern, true)
]

unfoldable pub classify_known : Text → Text × Bool
unfolding classify_cleaned clean_path
classify_known path = classify_cleaned (clean_path path)

unfoldable pub classify : Text → Text
unfolding classify_known
classify path = (classify_known path).0

-- A query string makes no difference.
pub classify_known-query :
    (path query : Text) → classify_known (path ++ b'?' ∷ query) ≡ classify_known path
unfolding classify_known
classify_known-query path query = ap classify_cleaned (clean_path-query path query)

-- Every pattern of the table is classified as itself: no entry is shadowed by an earlier one.
abbrev pub keeps_itself : EndpointPattern → Bool
keeps_itself e = text_beq (classify_known e.pattern).0 e.pattern && (classify_known e.pattern).1

pub all_keep_themselves : every keeps_itself endpoint_patterns ≡ true
unfolding every text_beq classify_known classify_cleaned first_pattern matches has_prefix has_suffix
    clean_path count_byte strip_query trim_right drop_front
all_keep_themselves = refl

pub same_pair : (c : Text × Bool) (p : Text) → (text_beq c.0 p && c.1) ≡ true → c ≡ (p, true)
same_pair (q, b) p h =
    let named : q ≡ p = ground (arith, text_beq_iff q p) in
    let found : b ≡ true = ground arith in rw (named, found) refl
