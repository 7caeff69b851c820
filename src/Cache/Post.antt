-- ===== src/Cache/Post.antt =====
-- internal/cache/postcache.go: single POST queries, cached by the hash of their body without the
-- caller's own tracking fields. A value that is an object is decoded, stripped and encoded again, to
-- any depth; `strip_non_identity_fields` recurs on fuel, and the length of the body is enough of it
-- where the values of an object are shorter than the object (Post/Depth).
pub mod Depth
pub mod Identity
use smart_proxy.Base.{
  ℕ, zero, suc, Bool, ◌||◌, Option, none, some, [], ◌∷◌, ◌++◌, if◌then◌else◌, text_beq, length,
}
use smart_proxy.Base.Text.{Text, text}
use smart_proxy.Base.Dict.{Dict}
use smart_proxy.Cache.Http.{
  HttpRequest, CacheConfig, Served, Outside, JsonCodec, failed, nil_map, object,
}
use smart_proxy.Cache.Memory.{MemoryCache}
use smart_proxy.Cache.Tiers.{TierConfig}
use smart_proxy.Cache.Serve.{pass, serve_key}

abbrev pub is_non_identity : Text → Bool
is_non_identity k = text_beq k (text "Identifier") || text_beq k (text "clientReferenceDetails")

abbrev pub keep_field : Text → Text → Option (Dict Text Text) → Option (Dict Text Text)
keep_field k v none = none
keep_field k v (some d) = some ((k, v) ∷ d)

module _ (json : JsonCodec) where
  -- What a field that stays becomes: a nested object is stripped and encoded again; `strip` is the
  -- recursive call. `none` is lack of fuel.
  unfoldable pub strip_value : (Dict Text Text → Option (Dict Text Text)) → Text → Option Text
  strip_value strip v = elim (json.decode_object v) [
    | failed ↦ some v
    | nil_map ↦ some (text "null")
    | object nested ↦ elim (strip nested) [
      | none ↦ none
      | some stripped ↦ some (json.encode_object stripped)
    ]
  ]

  -- the loop over the fields
  unfoldable pub strip_fields :
      (Dict Text Text → Option (Dict Text Text)) → Dict Text Text → Option (Dict Text Text)
  unfolding strip_value
  strip_fields strip [] = some []
  strip_fields strip ((k, v) ∷ d) =
      let rest = strip_fields strip d in
      if is_non_identity k
      then rest
      else elim (strip_value strip v) [ none ↦ none | some w ↦ keep_field k w rest ]

  unfoldable pub strip_non_identity_fields : ℕ → Dict Text Text → Option (Dict Text Text)
  unfolding strip_fields
  strip_non_identity_fields zero d = none
  strip_non_identity_fields (suc fuel) d = strip_fields (strip_non_identity_fields fuel) d

  -- `none` is the code's error, or lack of fuel
  unfoldable pub normalize_body : Text → Option Text
  unfolding strip_non_identity_fields
  normalize_body body = elim (json.decode_object body) [
    | object d ↦ elim (strip_non_identity_fields (suc (length body)) d) [
      | none ↦ none
      | some stripped ↦ some (json.encode_object stripped)
    ]
    | nil_map ↦ some (text "null")
    | failed ↦ elim (json.decode_array body) [ none ↦ none | some arr ↦ json.encode_array arr ]
  ]

module _ (out : Outside) where
  unfoldable pub generate_post_cache_key : Text → Text → Text → Text
  unfolding normalize_body
  generate_post_cache_key merchant_key path body =
      let hashed : Text = elim (normalize_body out.json body) [
        | none ↦ body
        | some normalized ↦ normalized
      ] in
      merchant_key ++ (text ":POST:" ++ (path ++ b':' ∷ out.sha256_hex hashed))

  -- The key never fails to be made, so neither does the code's test for it.
  unfoldable pub handle_post_cache :
      MemoryCache → HttpRequest → TierConfig → CacheConfig → ℕ → ℕ → Served
  unfolding generate_post_cache_key pass serve_key
  handle_post_cache mc r tier cfg now later = elim r.body [
    | none ↦ pass out mc [] r
    | some body ↦
        serve_key out mc (generate_post_cache_key r.merchant_key r.path body) r tier cfg now later
  ]
