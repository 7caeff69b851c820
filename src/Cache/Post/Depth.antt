-- ===== src/Cache/Post/Depth.antt =====
-- internal/cache/postcache.go: the recursion of `stripNonIdentityFields` ends, and more fuel changes
-- nothing.
use smart_proxy.Base.{
  ℕ, zero, suc, ◌+◌, ◌≤◌, ◌<◌, ◌≡◌, refl, ap, ◌∙◌, ◌⊎◌, inl, inr, Option, some, [], ◌∷◌, arith,
  nat_eq, text_eq, Bool-cases, Option-cases, length, All,
}
use smart_proxy.Base.Text.{Text, text}
use smart_proxy.Base.Dict.{Dict}
use smart_proxy.Cache.Http.{JsonCodec, Decoded, failed, nil_map, object}
use smart_proxy.Cache.Post.{
  is_non_identity, keep_field, strip_value, strip_fields, strip_non_identity_fields,
}

abbrev pub Below : ℕ → Dict Text Text → Type 0
Below n d = All (λ kv. length kv.1 < n) d

-- The values of an object are shorter than its text.
abbrev pub Shrinks : JsonCodec → Type 0
Shrinks json =
    (v : Text) (d : Dict Text Text) → json.decode_object v ≡ object d → Below (length v) d

pub Decoded-cases :
    (x : Decoded) → (x ≡ failed) ⊎ (x ≡ nil_map) ⊎ ((d : Dict Text Text) × (x ≡ object d))
Decoded-cases failed = inl refl
Decoded-cases nil_map = inr (inl refl)
Decoded-cases (object d) = inr (inr (d, refl))

Below-weaken : (m n : ℕ) (d : Dict Text Text) → m ≤ n → Below m d → Below n d
Below-weaken m n [] le h = tt
Below-weaken m n ((k, v) ∷ d) le (here, more) = (omega arith, Below-weaken m n d le more)

module _ (json : JsonCodec) where
  strip_fields_total :
      (f : Dict Text Text → Option (Dict Text Text)) (d : Dict Text Text)
      → All (λ kv. (w : Text) × (strip_value json f kv.1 ≡ some w)) d
      → (s : Dict Text Text) × (strip_fields json f d ≡ some s)
  unfolding strip_fields
  strip_fields_total f [] h = ([], refl)
  strip_fields_total f ((k, v) ∷ d) ((w, here), more) =
      let (s, rest) = strip_fields_total f d more in
      elim (Bool-cases (is_non_identity k)) [
        | inl e ↦ (s, rw (e, strip_fields) rest)
        | inr e ↦ ((k, w) ∷ s, rw (e, here, strip_fields) (rw rest refl))
      ]

  strip_value_total :
      (f : Dict Text Text → Option (Dict Text Text)) (v : Text)
      → ((nested : Dict Text Text)
          → json.decode_object v ≡ object nested
          → (s : Dict Text Text) × (f nested ≡ some s))
      → (w : Text) × (strip_value json f v ≡ some w)
  unfolding strip_value
  strip_value_total f v h = elim (Decoded-cases (json.decode_object v)) [
    | inl e ↦ (v, rw (e, strip_value) refl)
    | inr (inl e) ↦ (text "null", rw (e, strip_value) refl)
    | inr (inr (nested, e)) ↦
        let (s, stripped) = h nested e in
        (json.encode_object s, rw (e, strip_value) (rw stripped refl))
  ]

  strip_fields_stable :
      (f g : Dict Text Text → Option (Dict Text Text)) (d : Dict Text Text)
      → All (λ kv. strip_value json f kv.1 ≡ strip_value json g kv.1) d
      → strip_fields json f d ≡ strip_fields json g d
  unfolding strip_fields
  strip_fields_stable f g [] h = refl
  strip_fields_stable f g ((k, v) ∷ d) (here, more) =
      let rest = strip_fields_stable f g d more in
      elim (Bool-cases (is_non_identity k)) [
        | inl e ↦ rw (e, strip_fields) rest
        | inr e ↦ elim (Option-cases (strip_value json g v)) [
          | inl gone ↦ rw (e, here, gone, strip_fields) refl
          | inr (w, kept) ↦ rw (e, here, kept, strip_fields) (ap (keep_field k w) rest)
        ]
      ]

  strip_value_stable :
      (f g : Dict Text Text → Option (Dict Text Text)) (v : Text)
      → ((nested : Dict Text Text) → json.decode_object v ≡ object nested → f nested ≡ g nested)
      → strip_value json f v ≡ strip_value json g v
  unfolding strip_value
  strip_value_stable f g v h = elim (Decoded-cases (json.decode_object v)) [
    | inl e ↦ rw (e, strip_value) refl
    | inr (inl e) ↦ rw (e, strip_value) refl
    | inr (inr (nested, e)) ↦ rw (e, strip_value) (rw (h nested e) refl)
  ]

  module _ (shrinks : Shrinks json) where
    values_total :
        (fuel : ℕ) (d : Dict Text Text)
        → Below fuel d
        → All
            (λ kv.
              (w : Text) × (strip_value json (strip_non_identity_fields json fuel) kv.1 ≡ some w))
            d
    unfolding strip_non_identity_fields
    values_total fuel [] h = tt
    values_total zero ((k, v) ∷ d) (here, more) = absurd (omega arith)
    values_total (suc fuel) ((k, v) ∷ d) (here, more) = (
      strip_value_total (strip_non_identity_fields json (suc fuel)) v (λ nested e.
          strip_fields_total (strip_non_identity_fields json fuel) nested (
            values_total fuel nested
              (Below-weaken (length v) fuel nested (omega arith) (shrinks v nested e)))),
      values_total (suc fuel) d more,
    )

    values_stable :
        (m n : ℕ) (d : Dict Text Text)
        → Below m d
        → Below n d
        → All
            (λ kv.
              strip_value json (strip_non_identity_fields json m) kv.1
              ≡ strip_value json (strip_non_identity_fields json n) kv.1)
            d
    unfolding strip_non_identity_fields
    values_stable m n [] h k = tt
    values_stable zero n ((k, v) ∷ d) (here, more) h = absurd (omega arith)
    values_stable (suc m) zero ((k, v) ∷ d) h (here, more) = absurd (omega arith)
    values_stable (suc m) (suc n) ((k, v) ∷ d) (here, more) (here', more') = (
      strip_value_stable (strip_non_identity_fields json (suc m))
          (strip_non_identity_fields json (suc n)) v
          (λ nested e.
            let below = shrinks v nested e in
            strip_fields_stable (strip_non_identity_fields json m)
              (strip_non_identity_fields json n) nested
              (values_stable m n nested (Below-weaken (length v) m nested (omega arith) below)
                (Below-weaken (length v) n nested (omega arith) below))),
      values_stable (suc m) (suc n) d more more',
    )

    strip_stable :
        (m n : ℕ) (d : Dict Text Text)
        → Below m d
        → Below n d
        → strip_non_identity_fields json (suc m) d ≡ strip_non_identity_fields json (suc n) d
    unfolding strip_non_identity_fields
    strip_stable m n d h k =
        strip_fields_stable (strip_non_identity_fields json m) (strip_non_identity_fields json n) d
          (values_stable m n d h k)

    -- The recursion ends. Where the values of every object are shorter than its text, the fuel that
    -- the model gives the recursion, the length of the body and one, is enough, and more of it gives
    -- the same fields.
    pub strip_non_identity_fields_total :
        (body : Text) (d : Dict Text Text) (extra : ℕ)
        → json.decode_object body ≡ object d
        → (s : Dict Text Text) × (strip_non_identity_fields json (suc (length body)) d ≡ some s)
          × (strip_non_identity_fields json (suc (length body + extra)) d ≡ some s)
    unfolding strip_non_identity_fields
    strip_non_identity_fields_total body d extra e =
        let below = shrinks body d e in
        let above = Below-weaken (length body) (length body + extra) d (omega arith) below in
        let (s, total) =
          strip_fields_total (strip_non_identity_fields json (length body)) d
            (values_total (length body) d below) in
        (s, total, strip_stable (length body + extra) (length body) d above below ∙ total)
