-- ===== src/RateLimit/Reachable.antt =====
-- internal/ratelimit/defaults.go beside internal/endpoint/classify.go.
use smart_proxy.Base.{
  ◌<◌, ◌≡◌, refl, subst, inl, inr, Bool, true, ◌&&◌, some, [], ◌∷◌, arith, ltb, nat_eq, text_eq,
  text_beq, text_beq_iff, Bool-cases, every,
}
use smart_proxy.Base.Text.{
  Text, has_prefix, has_suffix, clean_path, count_byte, strip_query, trim_right, drop_front,
}
use smart_proxy.Base.Dict.{Dict, lookup}
use smart_proxy.Endpoint.Classify.{
  classify, classify_known, classify_cleaned, first_pattern, matches,
}
use smart_proxy.RateLimit.Defaults.{BucketParams, default_bucket_params}

abbrev is_reached : Text × BucketParams → Bool
is_reached kv = text_beq (classify kv.0) kv.0 && ltb 0 kv.1.rate && ltb 0 kv.1.burst

all_reached : every is_reached default_bucket_params ≡ true
unfolding every text_beq classify classify_known classify_cleaned first_pattern matches has_prefix
    has_suffix clean_path count_byte strip_query trim_right drop_front
all_reached = refl

every-lookup :
    (p : Text × BucketParams → Bool) (d : Dict Text BucketParams) (k : Text) (v : BucketParams)
    → every p d ≡ true
    → lookup k d ≡ some v
    → p (k, v) ≡ true
unfolding every lookup
every-lookup p [] k v h e = cc
every-lookup p ((j, w) ∷ d) k v h e = elim (Bool-cases (text_beq j k)) [
  | inl same ↦
      let named : j ≡ k = (text_beq_iff j k).0 same in
      let found : w ≡ v = ground arith in
      subst (λ n. p (n, v) ≡ true) named (subst (λ u. p (j, u) ≡ true) found (ground arith))
  | inr other ↦ every-lookup p d k v (ground arith) (ground arith)
]

-- No default limit is dead or empty: an endpoint with a default rate is classified as itself, so its
-- limit applies to requests, and its rate and its burst are positive.
default_bucket_params_reached :
    (endpoint : Text) (p : BucketParams)
    → lookup endpoint default_bucket_params ≡ some p
    → (classify endpoint ≡ endpoint) × (0 < p.rate) × (0 < p.burst)
default_bucket_params_reached endpoint p h =
    tested (classify endpoint) endpoint p
      (every-lookup is_reached default_bucket_params endpoint p all_reached h)
  where
    tested :
        (c e : Text) (q : BucketParams)
        → (text_beq c e && ltb 0 q.rate && ltb 0 q.burst) ≡ true
        → (c ≡ e) × (0 < q.rate) × (0 < q.burst)
    tested c e q t = ground (arith, text_beq_iff c e)
