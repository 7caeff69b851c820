-- ===== src/RateLimit/Limiter.antt =====
-- internal/ratelimit/limiter.go: the buckets of every merchant, method and endpoint. The queues that hang
-- on the buckets and the goroutine of the collector are not modelled; `gc` is one of its ticks.
-- `parse_float` stands for strconv.ParseFloat, in billionths; `none` is an error. A
-- header with a negative number, which a server does not send, is left out.
use smart_proxy.Base.{
  ℕ, ◌+◌, ◌*◌, ◌≤◌, ◌≡◌, refl, ap, ◌∙◌, inl, inr, Bool, false, Option, none, some, [], ◌∷◌, ◌++◌,
  arith, ltb, if◌then◌else◌, ◌==◌, nat_eq, text_eq, text_beq, Bool-cases, Option-cases, length,
  text_beq_refl,
}
use smart_proxy.Base.Text.{Text}
use smart_proxy.Base.Dict.{Dict, lookup, insert, lookup-insert}
use smart_proxy.RateLimit.Bucket.{TokenBucket, new_token_bucket, update_rate, one_token, one_rate}
use mathlib.Core.Option.{some-injective}
use smart_proxy.RateLimit.Defaults.{BucketParams, lookup_defaults, app_bucket_params}

pub record BucketEntry : Type 0 where
  pub bucket : TokenBucket
  pub last_used : ℕ

pub record Limiter : Type 0 where
  pub buckets : Dict Text BucketEntry
  pub app_buckets : Dict Text BucketEntry
  pub throttle : ℕ

unfoldable pub new_limiter : ℕ → Limiter
new_limiter throttle = record { buckets = []; app_buckets = []; throttle = throttle }

abbrev pub bucket_key : Text → Text → Text → Text
bucket_key merchant_key method endpoint = merchant_key ++ b':' ∷ (method ++ b':' ∷ endpoint)

-- the entry that is there, with its last use set, or a new one
unfoldable pub load_or_store :
    Dict Text BucketEntry
    → Text
    → Option BucketParams
    → ℕ
    → ℕ
    → Dict Text BucketEntry × Option TokenBucket
load_or_store d key params throttle now = elim (lookup key d) [
  | some entry ↦ (insert key (record entry { last_used = now }) d, some entry.bucket)
  | none ↦ elim params [
    | none ↦ (d, none)
    | some p ↦
        let bucket = new_token_bucket p.rate (p.burst * one_token) throttle now in
        (insert key (record { bucket = bucket; last_used = now }) d, some bucket)
  ]
]

unfoldable pub get_bucket : Limiter → Text → Text → Text → ℕ → Limiter × Option TokenBucket
unfolding load_or_store
get_bucket l merchant_key method endpoint now =
    let (d, found) =
      load_or_store l.buckets (bucket_key merchant_key method endpoint)
        (lookup_defaults method endpoint) l.throttle now in
    (record l { buckets = d }, found)

unfoldable pub get_app_bucket : Limiter → Text → Text → ℕ → Limiter × Option TokenBucket
unfolding load_or_store
get_app_bucket l method endpoint now =
    let key = method ++ b':' ∷ endpoint in
    let (d, found) = load_or_store l.app_buckets key (lookup key app_bucket_params) one_rate now in
    (record l { app_buckets = d }, found)

-- bucket.UpdateRate through the shared pointer
unfoldable pub set_rate : Dict Text BucketEntry → Text → ℕ → Dict Text BucketEntry
unfolding update_rate
set_rate d key rate = elim (lookup key d) [
  | none ↦ d
  | some entry ↦ insert key (record entry { bucket = update_rate entry.bucket rate }) d
]

unfoldable pub update_from_response :
    (Text → Option ℕ) → Limiter → Text → Text → Text → Text → ℕ → Limiter
unfolding get_bucket set_rate
update_from_response parse_float l merchant_key method endpoint header now =
    if header == [] then l else elim (parse_float header) [
      | none ↦ l
      | some rate ↦
          let (l', found) = get_bucket l merchant_key method endpoint now in
          elim found [
            | none ↦ l'
            | some bucket ↦ record l' {
              buckets = set_rate l'.buckets (bucket_key merchant_key method endpoint) rate;
            }
          ]
    ]

abbrev pub is_stale : ℕ → ℕ → BucketEntry → Bool
is_stale ttl now entry = ltb (entry.last_used + ttl) now

unfoldable pub gc_map : ℕ → ℕ → Dict Text BucketEntry → Dict Text BucketEntry
gc_map ttl now [] = []
gc_map ttl now ((key, entry) ∷ d) =
    if is_stale ttl now entry then gc_map ttl now d else (key, entry) ∷ gc_map ttl now d

unfoldable pub gc : Limiter → ℕ → ℕ → Limiter
unfolding gc_map
gc l ttl now = record l {
  buckets = gc_map ttl now l.buckets;
  app_buckets = gc_map ttl now l.app_buckets;
}

unfoldable pub bucket_count : Limiter → ℕ
bucket_count l = length l.buckets

gc_map_kept :
    (ttl now : ℕ) (d : Dict Text BucketEntry) (key : Text) (entry : BucketEntry)
    → lookup key d ≡ some entry
    → is_stale ttl now entry ≡ false
    → lookup key (gc_map ttl now d) ≡ some entry
unfolding lookup gc_map
gc_map_kept ttl now [] key entry h fresh = cc
gc_map_kept ttl now ((k, e) ∷ d) key entry h fresh = elim (Bool-cases (text_beq k key)) [
  | inl same ↦
      let found : e ≡ entry = ground arith in
      let kept : is_stale ttl now e ≡ false = ap (is_stale ttl now) found ∙ fresh in
      rw (kept, gc_map) (ground arith)
  | inr other ↦
      let rest : lookup key (gc_map ttl now d) ≡ some entry =
        gc_map_kept ttl now d key entry (ground arith) fresh in
      elim (Bool-cases (is_stale ttl now e)) [
        | inl stale ↦ rw (stale, gc_map) rest
        | inr young ↦ rw (young, gc_map, other) rest
      ]
]

lookup-inserted :
    (key : Text) (entry : BucketEntry) (d : Dict Text BucketEntry)
    → lookup key (insert key entry d) ≡ some entry
lookup-inserted key entry d = lookup-insert key key entry d ∙ rw (text_beq_refl key) refl

load_or_store-kept :
    (d : Dict Text BucketEntry) (key : Text) (params : Option BucketParams) (throttle now : ℕ)
    (bucket : TokenBucket)
    → (load_or_store d key params throttle now).1 ≡ some bucket
    → lookup key (load_or_store d key params throttle now).0
      ≡ some (record { bucket = bucket; last_used = now })
unfolding load_or_store
load_or_store-kept d key params throttle now bucket h = elim (Option-cases (lookup key d)) [
  | inr (entry, e) ↦
      let same : entry.bucket ≡ bucket =
        some-injective entry.bucket bucket (rw (e, load_or_store) at h) in
      rw (e, load_or_store)
        (lookup-inserted key (record entry { last_used = now }) d
          ∙ ap (λ b. some (record { bucket = b; last_used = now })) same)
  | inl e ↦ elim (Option-cases params) [
    | inl unknown ↦ let impossible : none ≡ some bucket = rw (e, load_or_store, unknown) at h in cc
    | inr (p, known) ↦
        let made = new_token_bucket p.rate (p.burst * one_token) throttle now in
        let same : made ≡ bucket = some-injective made bucket (rw (e, load_or_store, known) at h) in
        rw (e, load_or_store, known)
          (lookup-inserted key (record { bucket = made; last_used = now }) d
            ∙ ap (λ b. some (record { bucket = b; last_used = now })) same)
  ]
]

load_or_store_again :
    (d : Dict Text BucketEntry) (key : Text) (params : Option BucketParams) (throttle now : ℕ)
    (entry : BucketEntry)
    → lookup key d ≡ some entry
    → (load_or_store d key params throttle now).1 ≡ some entry.bucket
unfolding load_or_store
load_or_store_again d key params throttle now entry h = rw (h, load_or_store) refl

-- A limit is not lost to the collector: the bucket that a call was given is the one that a later call
-- for the same merchant, method and endpoint is given, also after a collection in between, as long as
-- the collection comes within the time to live. (A bucket that was dropped is made anew, and full.)
pub get_bucket-gc :
    (l : Limiter) (m method endpoint : Text) (ttl now collected later : ℕ) (bucket : TokenBucket)
    → (get_bucket l m method endpoint now).1 ≡ some bucket
    → collected ≤ now + ttl
    → (get_bucket
        (gc (get_bucket l m method endpoint now).0 ttl collected)
        m
        method
        endpoint
        later).1
      ≡ some bucket
unfolding get_bucket gc
get_bucket-gc l m method endpoint ttl now collected later bucket h within =
    let key = bucket_key m method endpoint in
    let params = lookup_defaults method endpoint in
    let stored = load_or_store-kept l.buckets key params l.throttle now bucket h in
    let d = (load_or_store l.buckets key params l.throttle now).0 in
    let kept : lookup key (gc_map ttl collected d)
        ≡ some (record { bucket = bucket; last_used = now }) =
      gc_map_kept ttl collected d key (record { bucket = bucket; last_used = now }) stored
        (ground arith) in
    load_or_store_again (gc_map ttl collected d) key params l.throttle later
      (record { bucket = bucket; last_used = now }) kept
