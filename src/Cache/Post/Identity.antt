-- ===== src/Cache/Post/Identity.antt =====
-- internal/cache/postcache.go: queries that differ in the caller's tracking fields only have one key.
use smart_proxy.Base.{
  ℕ, suc, ◌+◌, ◌≡◌, refl, sym, ap, ◌∙◌, inl, inr, true, false, Option, none, some, [], ◌∷◌, arith,
  if◌then◌else◌, nat_eq, text_eq, text_beq_iff, Bool-cases, Option-cases, length, add_comm,
}
use smart_proxy.Base.Text.{Text}
use smart_proxy.Base.Dict.{Dict, lookup}
use smart_proxy.Cache.Http.{JsonCodec, Outside, object}
use smart_proxy.Cache.Post.{
  is_non_identity, strip_value, strip_fields, strip_non_identity_fields, normalize_body,
  generate_post_cache_key,
}
use smart_proxy.Cache.Post.Depth.{Shrinks, strip_non_identity_fields_total}

-- The encoder of a map sorts its keys, so its text depends on which key has which value.
abbrev pub Canonical : JsonCodec → Type 0
Canonical json =
    (d e : Dict Text Text)
    → ((k : Text) → lookup k d ≡ lookup k e)
    → json.encode_object d ≡ json.encode_object e

module _ (json : JsonCodec) where
  abbrev kept_value : (Dict Text Text → Option (Dict Text Text)) → Text → Option Text → Option Text
  kept_value f k none = none
  kept_value f k (some v) = if is_non_identity k then none else strip_value json f v

  dropped :
      (f : Dict Text Text → Option (Dict Text Text)) (k : Text) (v : Option Text)
      → is_non_identity k ≡ true
      → kept_value f k v ≡ none
  dropped f k none h = refl
  dropped f k (some v) h = rw h refl

  lookup-strip_fields :
      (f : Dict Text Text → Option (Dict Text Text)) (d s : Dict Text Text) (k : Text)
      → strip_fields json f d ≡ some s
      → lookup k s ≡ kept_value f k (lookup k d)
  unfolding strip_fields lookup
  lookup-strip_fields f [] s k h = ground arith
  lookup-strip_fields f ((j, v) ∷ d) s k h = elim (Option-cases (strip_fields json f d)) [
    | inl e ↦ ground (arith, e)
    | inr (rest, e) ↦
        let ih = lookup-strip_fields f d rest k e in
        elim (Bool-cases (is_non_identity j)) [
          | inl x ↦ ground (arith, ih, text_beq_iff j k)
          | inr x ↦ elim (Option-cases (strip_value json f v)) [
            | inl y ↦ let impossible : none ≡ some s = rw (x, y, strip_fields) at h in cc
            | inr (w, y) ↦ ground (arith, ih, text_beq_iff j k)
          ]
        ]
  ]

  stripped_agree :
      (fuel : ℕ) (d e s t : Dict Text Text)
      → strip_non_identity_fields json (suc fuel) d ≡ some s
      → strip_non_identity_fields json (suc fuel) e ≡ some t
      → ((k : Text) → is_non_identity k ≡ false → lookup k d ≡ lookup k e)
      → (k : Text) → lookup k s ≡ lookup k t
  unfolding strip_non_identity_fields
  stripped_agree fuel d e s t h h' agree k =
      let f = strip_non_identity_fields json fuel in
      let left = lookup-strip_fields f d s k h in
      let right = lookup-strip_fields f e t k h' in
      elim (Bool-cases (is_non_identity k)) [
        | inr x ↦ left ∙ ap (kept_value f k) (agree k x) ∙ sym right
        | inl x ↦ left ∙ dropped f k (lookup k d) x ∙ sym (right ∙ dropped f k (lookup k e) x)
      ]

module _ (out : Outside) (shrinks : Shrinks out.json) (canonical : Canonical out.json) where
  -- Two queries of one merchant to one path whose bodies are objects that differ in the caller's
  -- tracking fields only, at the top, have one key. The values of an object are shorter than its text,
  -- and the encoder's text depends only on which key has which value.
  pub generate_post_cache_key_ignores :
      (merchant_key path body other : Text) (d e : Dict Text Text)
      → out.json.decode_object body ≡ object d
      → out.json.decode_object other ≡ object e
      → ((k : Text) → is_non_identity k ≡ false → lookup k d ≡ lookup k e)
      → generate_post_cache_key out merchant_key path body
        ≡ generate_post_cache_key out merchant_key path other
  unfolding generate_post_cache_key normalize_body
  generate_post_cache_key_ignores merchant_key path body other d e h k agree =
      let n = length body + length other in
      let (s, done, more) =
        strip_non_identity_fields_total out.json shrinks body d (length other) h in
      let (t, done', more') =
        strip_non_identity_fields_total out.json shrinks other e (length body) k in
      let same_fuel : strip_non_identity_fields out.json (suc n) e ≡ some t =
        ap (λ i. strip_non_identity_fields out.json (suc i) e)
          (add_comm (length body) (length other))
        ∙ more' in
      let encoded : out.json.encode_object s ≡ out.json.encode_object t =
        canonical s t (stripped_agree out.json n d e s t more same_fuel agree) in
      simp (h, k, done, done', generate_post_cache_key, normalize_body) (rw encoded refl)
