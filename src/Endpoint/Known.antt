-- ===== src/Endpoint/Known.antt =====
-- internal/endpoint/classify.go: the classifier against a description of the paths of a pattern.
use mathlib.Core.Bool.{false≢true}
use mathlib.Core.List.{reverse, reverse-reverse, reverse-append}
use smart_proxy.Base.{
  ◌+◌, ◌≡◌, refl, sym, ap, subst, ◌∙◌, ◌⊎◌, inl, inr, Bool, true, false, ◌||◌, none, some, List, [],
  ◌∷◌, ◌++◌, arith, ◌==◌, nat_eq, text_eq, text_beq_iff, Bool-cases, Option-cases, length, All,
  every, drop,
}
use smart_proxy.Base.Text.{Text, has_prefix, has_suffix}
use smart_proxy.Base.Text.{
  Text, has_prefix, has_suffix, clean_path, count_byte, has_prefix-append, has_prefix_split,
}
use smart_proxy.Base.Clean.{clean_path_idem}
use smart_proxy.Endpoint.Patterns.{EndpointPattern, endpoint_patterns}
use smart_proxy.Endpoint.Classify.{
  matches, first_pattern, segment_count_of, classify_cleaned, classify_known, classify,
  keeps_itself, all_keep_themselves, same_pair,
}

-- What it is for a path to have an entry's pattern: it begins with the entry's prefix, has as many
-- segments as the entry says, one more than slashes, and ends in a slash and the entry's suffix, if
-- it has one.
pub record Fits (e : EndpointPattern) (path : Text) : Type 0 where
  pub rest : Text
  pub starts : path ≡ e.prefix ++ rest
  pub counts : count_byte path b'/' + 1 ≡ e.segments
  pub ends : (e.suffix ≡ []) ⊎ ((front : Text) × (path ≡ front ++ b'/' ∷ e.suffix))

has_suffix-append : (front p : Text) → has_suffix (front ++ p) p ≡ true
unfolding has_suffix
has_suffix-append front p =
    ap (λ t. has_prefix t (reverse p)) (reverse-append front p)
    ∙ has_prefix-append (reverse p) (reverse front)

has_suffix_split : (s p : Text) → has_suffix s p ≡ true → (front : Text) × (s ≡ front ++ p)
unfolding has_suffix
has_suffix_split s p h =
    let rest = drop (length (reverse p)) (reverse s) in
    let whole : reverse s ≡ reverse p ++ rest = has_prefix_split (reverse s) (reverse p) h in
    (
      reverse rest,
      sym (reverse-reverse s)
          ∙ ap reverse whole
          ∙ reverse-append (reverse p) rest
          ∙ ap (λ t. reverse rest ++ t) (reverse-reverse p),
    )

matches-Fits :
    (e : EndpointPattern) (path : Text)
    → matches e path (segment_count_of path) ≡ true
    → Fits e path
unfolding matches
matches-Fits e path h = record {
  rest = drop (length e.prefix) path;
  starts = has_prefix_split path e.prefix (ground arith);
  counts = ground arith;
  ends = elim (Bool-cases (e.suffix == [])) [
    | inl bare ↦ inl (ground (arith, text_beq_iff e.suffix []))
    | inr more ↦ inr (has_suffix_split path (b'/' ∷ e.suffix) (ground arith))
  ];
}

Fits-matches :
    (e : EndpointPattern) (path : Text)
    → Fits e path
    → matches e path (segment_count_of path) ≡ true
unfolding matches
Fits-matches e path f =
    let front : has_prefix path e.prefix ≡ true = rw f.starts (has_prefix-append e.prefix f.rest) in
    let back : (e.suffix == [] || has_suffix path (b'/' ∷ e.suffix)) ≡ true = elim f.ends [
      | inl bare ↦ ground (arith, text_beq_iff e.suffix [])
      | inr (before, whole) ↦
          let ending : has_suffix path (b'/' ∷ e.suffix) ≡ true =
            rw whole (has_suffix-append before (b'/' ∷ e.suffix)) in
          ground arith
    ] in
    ground (arith, f.counts)

-- The two answers of the classifier: a known path has the pattern of the first entry of the table
-- that the cleaned path fits; of an unknown path the cleaned path comes back, and it fits no entry.
pub data Classified (path : Text) : Text × Bool → Type 0 where
  known :
      (e : EndpointPattern) (earlier later : List EndpointPattern)
      → endpoint_patterns ≡ earlier ++ e ∷ later
      → Fits e (clean_path path)
      → All (λ q. ¬ Fits q (clean_path path)) earlier
      → Classified path (e.pattern, true)
  unknown :
      All (λ q. ¬ Fits q (clean_path path)) endpoint_patterns
      → Classified path (clean_path path, false)

first_pattern_found :
    (es : List EndpointPattern) (path : Text) (e : EndpointPattern)
    → first_pattern es path (segment_count_of path) ≡ some e
    → (earlier : List EndpointPattern) × (later : List EndpointPattern) × (es
        ≡ earlier ++ e ∷ later)
      × Fits e path
      × All (λ q. ¬ Fits q path) earlier
unfolding first_pattern
first_pattern_found [] path e h = cc
first_pattern_found (q ∷ es) path e h = elim (Bool-cases (matches q path (segment_count_of path))) [
  | inl found ↦
      let same : q ≡ e = ground arith in
      ([], es, ap (λ p. p ∷ es) same, subst (λ p. Fits p path) same (matches-Fits q path found), tt)
  | inr passed ↦
      let (earlier, later, table, fits, first) = first_pattern_found es path e (ground arith) in
      (
        q ∷ earlier,
        later,
        ap (◌∷◌ q) table,
        fits,
        ((λ f. false≢true (sym passed ∙ Fits-matches q path f)), first),
      )
]

first_pattern-none :
    (es : List EndpointPattern) (path : Text)
    → first_pattern es path (segment_count_of path) ≡ none
    → All (λ q. ¬ Fits q path) es
unfolding first_pattern
first_pattern-none [] path h = tt
first_pattern-none (q ∷ es) path h =
    let passed : matches q path (segment_count_of path) ≡ false = ground arith in
    (
      (λ f. false≢true (sym passed ∙ Fits-matches q path f)),
      first_pattern-none es path (ground arith),
    )

-- The classifier, on the path cleaned of its query and its trailing slashes. A known path gets the
-- pattern of the first entry of the table that it fits: it has the entry's prefix and its number of
-- segments, and ends in a slash and the entry's suffix if it has one; it fits no earlier entry. An
-- unknown path comes back cleaned, and it fits no entry of the table.
pub classify_known-Classified : (path : Text) → Classified path (classify_known path)
unfolding classify_known classify_cleaned
classify_known-Classified path =
    let cleaned = clean_path path in
    elim (Option-cases (first_pattern endpoint_patterns cleaned (segment_count_of cleaned))) [
      | inl e ↦ rw (e, classify_cleaned) (unknown (first_pattern-none endpoint_patterns cleaned e))
      | inr (q, e) ↦
          let (earlier, later, table, fits, first) =
            first_pattern_found endpoint_patterns cleaned q e in
          rw (e, classify_cleaned) (known q earlier later table fits first)
    ]

every_middle :
    (p : EndpointPattern → Bool) (earlier : List EndpointPattern) (e : EndpointPattern)
    (later : List EndpointPattern)
    → every p (earlier ++ e ∷ later) ≡ true
    → p e ≡ true
unfolding every
every_middle p [] e later h = ground arith
every_middle p (q ∷ earlier) e later h = every_middle p earlier e later (ground arith)

-- Classification is idempotent: what the classifier returns, pattern or cleaned path, it classifies as
-- itself, and as known exactly when the path was.
classify_known_idem : (path : Text) → classify_known (classify path) ≡ classify_known path
unfolding classify classify_known
classify_known_idem path = go (classify_known path) (classify_known-Classified path) refl
  where
    go : (c : Text × Bool) → Classified path c → classify_known path ≡ c → classify_known c.0 ≡ c
    go c (known e earlier later table fits first) same =
        let kept : keeps_itself e ≡ true =
          every_middle keeps_itself earlier e later
            (ap (every keeps_itself) (sym table) ∙ all_keep_themselves) in
        same_pair (classify_known e.pattern) e.pattern kept
    go c (unknown none_fits) same = ap classify_cleaned (clean_path_idem path) ∙ same
