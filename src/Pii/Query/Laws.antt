-- ===== src/Pii/Query/Laws.antt =====
-- internal/pii/query.go and internal/pii/headers.go: what the log shows of parameters and headers.
use smart_proxy.Base.{
  ℕ, zero, suc, ◌≡◌, refl, sym, ap, ◌∙◌, inl, inr, true, none, some, List, [], ◌∷◌, ◌++◌, map,
  arith, if◌then◌else◌, nat_eq, text_eq, text_beq, text_beq_iff, Bool-cases, Option-cases, length,
  every, take,
}
use smart_proxy.Base.Text.{Text, text, index_byte, split, join}
use smart_proxy.Base.Dict.{Dict, lookup}
use smart_proxy.Base.Clean.{lacks, lacks-append, split-join, split_shape}
use smart_proxy.Pii.Query.{
  redact_part, redact_query_string, is_pii_param, query_redacted_value, redact_headers,
  is_sensitive,
}
use mathlib.Core.List.{map-append}

abbrev pub shown : Text → List Text → List Text
shown k vals = if is_sensitive k then text "[REDACTED]" ∷ [] else vals

redact_headers-cons :
    (j : Text) (vals : List Text) (headers : Dict Text (List Text))
    → redact_headers ((j, vals) ∷ headers) ≡ (j, shown j vals) ∷ redact_headers headers
unfolding redact_headers
redact_headers-cons j vals headers = elim (Bool-cases (is_sensitive j)) [
  | inl secret ↦ rw (secret, redact_headers) refl
  | inr plain ↦ rw (plain, redact_headers) refl
]

-- The log has every header under its name: a sensitive one, however it is capitalised, with the
-- marker as its only value, the others with their values.
lookup-redact_headers :
    (headers : Dict Text (List Text)) (k : Text)
    → lookup k (redact_headers headers)
      ≡ elim (lookup k headers) [ none ↦ none | some vals ↦ some (shown k vals) ]
unfolding lookup
lookup-redact_headers [] k = unfold redact_headers in refl
lookup-redact_headers ((j, vals) ∷ headers) k = elim (Bool-cases (text_beq j k)) [
  | inl same ↦
      let named : j ≡ k = (text_beq_iff j k).0 same in
      rw (redact_headers-cons j vals headers, same) (ap (λ n. some (shown n vals)) named)
  | inr other ↦ rw (redact_headers-cons j vals headers, other) (lookup-redact_headers headers k)
]

-- The empty query needs no case of its own.
redact_query_string_parts :
    (q : Text) (extra : List Text)
    → redact_query_string q extra ≡ join (map (redact_part extra) (split q b'&')) (text "&")
unfolding redact_query_string split join redact_part index_byte text_beq
redact_query_string_parts [] extra = refl
redact_query_string_parts (c ∷ q) extra = refl

lacks-take : (c : ℕ) (n : ℕ) (s : Text) → lacks c s ≡ true → lacks c (take n s) ≡ true
unfolding lacks every
lacks-take c zero s h = refl
lacks-take c (suc n) [] h = refl
lacks-take c (suc n) (d ∷ s) h = ground (arith, lacks-take c n s)

redact_part-lacks :
    (extra : List Text) (part : Text)
    → lacks b'&' part ≡ true
    → lacks b'&' (redact_part extra part) ≡ true
unfolding redact_part
redact_part-lacks extra part h = elim (Option-cases (index_byte part b'=')) [
  | inl e ↦ rw (e, redact_part) h
  | inr (eq, e) ↦ elim (Bool-cases (is_pii_param extra (take eq part))) [
    | inl secret ↦
        rw (e, redact_part, secret)
          (lacks-append b'&' (take eq part) (b'=' ∷ query_redacted_value)
            (lacks-take b'&' eq part h) (unfold lacks every in refl))
    | inr plain ↦ rw (e, redact_part, plain) h
  ]
]

every_redacted :
    (extra : List Text) (parts : List Text)
    → every (lacks b'&') parts ≡ true
    → every (lacks b'&') (map (redact_part extra) parts) ≡ true
unfolding every
every_redacted extra [] h = refl
every_redacted extra (p ∷ parts) h =
    let first : lacks b'&' (redact_part extra p) ≡ true =
      redact_part-lacks extra p (ground arith) in
    let others : every (lacks b'&') (map (redact_part extra) parts) ≡ true =
      every_redacted extra parts (ground arith) in
    ground (arith, first, others)

-- The parameters of the redacted query are those of the query, each redacted on its own: none is lost,
-- added or moved.
split-redact_query_string :
    (q : Text) (extra : List Text)
    → split (redact_query_string q extra) b'&' ≡ map (redact_part extra) (split q b'&')
split-redact_query_string q extra =
    let (p, ps, e, h) = split_shape q b'&' in
    let redacted : every (lacks b'&') (map (redact_part extra) (p ∷ ps)) ≡ true =
      every_redacted extra (p ∷ ps) h in
    rw (redact_query_string_parts q extra, e)
      (split-join (redact_part extra p) (map (redact_part extra) ps) b'&' redacted)

-- The place of the first `=` does not depend on what follows it.
index_byte-key :
    (key value : Text)
    → lacks b'=' key ≡ true
    → index_byte (key ++ b'=' ∷ value) b'=' ≡ some (length key)
unfolding lacks every index_byte
index_byte-key [] value h = refl
index_byte-key (c ∷ key) value h = ground (arith, index_byte-key key value)

take-length : (s t : Text) → take (length s) (s ++ t) ≡ s
take-length [] t = refl
take-length (c ∷ s) t = ap (λ r. c ∷ r) (take-length s t)

redact_part-key :
    (extra : List Text) (key value : Text)
    → lacks b'=' key ≡ true
    → is_pii_param extra key ≡ true
    → redact_part extra (key ++ b'=' ∷ value) ≡ key ++ b'=' ∷ query_redacted_value
unfolding redact_part
redact_part-key extra key value h secret =
    let same : take (length key) (key ++ b'=' ∷ value) ≡ key = take-length key (b'=' ∷ value) in
    rw (index_byte-key key value h, redact_part, same, secret) refl

-- A secret does not reach the log: two queries that differ only in the value of a personal
-- parameter, under any capitalisation of its name and at any place, are logged alike. The name has
-- no `=`, and no part of the queries has `&`.
pub redact_query_string_hides :
    (extra before after : List Text) (key v w : Text)
    → lacks b'=' key ≡ true
    → is_pii_param extra key ≡ true
    → every (lacks b'&') (before ++ (key ++ b'=' ∷ v) ∷ after) ≡ true
    → every (lacks b'&') (before ++ (key ++ b'=' ∷ w) ∷ after) ≡ true
    → redact_query_string (join (before ++ (key ++ b'=' ∷ v) ∷ after) (text "&")) extra
      ≡ redact_query_string (join (before ++ (key ++ b'=' ∷ w) ∷ after) (text "&")) extra
redact_query_string_hides extra before after key v w h secret hv hw =
    logged v hv ∙ sym (logged w hw)
  where
    split_back :
        (bs : List Text) (q : Text)
        → every (lacks b'&') (bs ++ q ∷ after) ≡ true
        → split (join (bs ++ q ∷ after) (text "&")) b'&' ≡ bs ++ q ∷ after
    split_back [] q e = split-join q after b'&' e
    split_back (b ∷ bs) q e = split-join b (bs ++ q ∷ after) b'&' e

    logged :
        (value : Text)
        → every (lacks b'&') (before ++ (key ++ b'=' ∷ value) ∷ after) ≡ true
        → redact_query_string (join (before ++ (key ++ b'=' ∷ value) ∷ after) (text "&")) extra
          ≡ join
              (map (redact_part extra) before
                ++ (key ++ b'=' ∷ query_redacted_value) ∷ map (redact_part extra) after)
              (text "&")
    logged value e =
        let q = key ++ b'=' ∷ value in
        redact_query_string_parts (join (before ++ q ∷ after) (text "&")) extra
        ∙ ap (λ parts. join (map (redact_part extra) parts) (text "&")) (split_back before q e)
        ∙ ap (λ parts. join parts (text "&")) (map-append (redact_part extra) before (q ∷ after))
        ∙ ap
            (λ p.
              join (map (redact_part extra) before ++ p ∷ map (redact_part extra) after) (text "&"))
            (redact_part-key extra key value h secret)

key-lacks :
    (part : Text) (eq : ℕ) → index_byte part b'=' ≡ some eq → lacks b'=' (take eq part) ≡ true
unfolding index_byte lacks every
key-lacks [] eq h = cc
key-lacks (c ∷ part) zero h = refl
key-lacks (c ∷ part) (suc eq) h = ground (arith, key-lacks part eq)

redact_part_idem :
    (extra : List Text) (part : Text)
    → redact_part extra (redact_part extra part) ≡ redact_part extra part
unfolding redact_part
redact_part_idem extra part = elim (Option-cases (index_byte part b'=')) [
  | inl e ↦
      let same : redact_part extra part ≡ part = rw (e, redact_part) refl in
      ap (redact_part extra) same
  | inr (eq, e) ↦ elim (Bool-cases (is_pii_param extra (take eq part))) [
    | inl secret ↦
        let same : redact_part extra part ≡ take eq part ++ b'=' ∷ query_redacted_value =
          rw (e, redact_part, secret) refl in
        ap (redact_part extra) same
        ∙ redact_part-key extra (take eq part) query_redacted_value (key-lacks part eq e) secret
        ∙ sym same
    | inr plain ↦
        let same : redact_part extra part ≡ part = rw (e, redact_part, plain) refl in
        ap (redact_part extra) same
  ]
]

map_idem :
    (extra : List Text) (parts : List Text)
    → map (redact_part extra) (map (redact_part extra) parts) ≡ map (redact_part extra) parts
map_idem extra [] = refl
map_idem extra (p ∷ parts) =
    ap (λ q. q ∷ map (redact_part extra) (map (redact_part extra) parts)) (redact_part_idem extra p)
    ∙ ap (λ ps. redact_part extra p ∷ ps) (map_idem extra parts)

-- Redacting a query string twice is redacting it once.
redact_query_string_idem :
    (q : Text) (extra : List Text)
    → redact_query_string (redact_query_string q extra) extra ≡ redact_query_string q extra
redact_query_string_idem q extra =
    redact_query_string_parts (redact_query_string q extra) extra
    ∙ ap (λ parts. join (map (redact_part extra) parts) (text "&"))
        (split-redact_query_string q extra)
    ∙ ap (λ parts. join parts (text "&")) (map_idem extra (split q b'&'))
    ∙ sym (redact_query_string_parts q extra)
