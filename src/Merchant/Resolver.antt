-- ===== src/Merchant/Resolver.antt =====
-- internal/merchant/resolver.go: the merchant of a request, from its header, the configured tokens or the
-- hash of its token. A nil map of tokens is the empty one, an absent header the empty text. `token_hash`
-- is the hexadecimal form of the first 16 bytes of SHA-256.
use smart_proxy.Base.{
  ◌≡◌, refl, subst, inl, inr, Bool, true, false, not, ◌&&◌, Option, none, some, [], ◌++◌,
  if◌then◌else◌, ◌==◌, nat_eq, text_eq, text_beq, text_beq_iff, Bool-cases, Option-cases,
}
use smart_proxy.Base.Text.{Text, text}
use smart_proxy.Base.Dict.{Dict, lookup}

pub data MerchantSource : Type 0 where
  from_header from_config from_token_hash : MerchantSource

pub record ResolvedMerchant : Type 0 where
  pub key : Text
  pub source : MerchantSource

pub record Resolver : Type 0 where
  pub token_map : Dict Text Text
  pub strict : Bool

-- the two headers that the resolver reads
pub record Identity : Type 0 where
  pub merchant_id : Text
  pub access_token : Text

abbrev pub merchant : Text → MerchantSource → ResolvedMerchant
merchant key source = record { key = key; source = source }

module _ (token_hash : Text → Text) where
  abbrev pub hashed_key : Text → Text
  hashed_key token = text "tokenhash:" ++ token_hash token

  unfoldable pub resolve : Resolver → Identity → ResolvedMerchant
  unfolding lookup
  resolve r req =
      if not (req.merchant_id == [])
      then merchant req.merchant_id from_header
      else elim (lookup req.access_token r.token_map) [
        | some mapped ↦ merchant mapped from_config
        | none ↦ merchant (hashed_key req.access_token) from_token_hash
      ]

  unfoldable pub resolve_strict : Resolver → Identity → Option ResolvedMerchant
  unfolding lookup
  resolve_strict r req =
      if not (req.merchant_id == [])
      then some (merchant req.merchant_id from_header)
      else elim (lookup req.access_token r.token_map) [
        | some mapped ↦ some (merchant mapped from_config)
        | none ↦
            if req.access_token == []
            then none
            else some (merchant (hashed_key req.access_token) from_token_hash)
      ]

  -- the merchant that goes into the request's context; `none` is the answer 400
  unfoldable pub identify : Resolver → Identity → Option ResolvedMerchant
  unfolding resolve resolve_strict
  identify r req = if r.strict then resolve_strict r req else some (resolve r req)

  abbrev pub is_anonymous : Resolver → Identity → Bool
  is_anonymous r req =
      req.merchant_id == []
      && req.access_token == []
      && elim (lookup [] r.token_map) [ none ↦ true | some mapped ↦ false ]

  anonymous_refused :
      (r : Resolver) (req : Identity)
      → resolve_strict r req ≡ (if is_anonymous r req then none else some (resolve r req))
  unfolding resolve resolve_strict
  anonymous_refused r req = elim (Bool-cases (text_beq req.merchant_id [])) [
    | inr headed ↦ simp headed refl
    | inl headless ↦ elim (Bool-cases (text_beq req.access_token [])) [
      | inr tokened ↦ elim (Option-cases (lookup req.access_token r.token_map)) [
        | inl unmapped ↦ simp (headless, tokened, unmapped) refl
        | inr (mapped, e) ↦ simp (headless, tokened, e) refl
      ]
      | inl tokenless ↦
          let empty : req.access_token ≡ [] = (text_beq_iff req.access_token []).0 tokenless in
          elim (Option-cases (lookup req.access_token r.token_map)) [
            | inl unmapped ↦
                let unmapped' : lookup [] r.token_map ≡ none =
                  subst (λ t. lookup t r.token_map ≡ none) empty unmapped in
                simp (headless, tokenless, unmapped, unmapped') refl
            | inr (mapped, e) ↦
                let e' : lookup [] r.token_map ≡ some mapped =
                  subst (λ t. lookup t r.token_map ≡ some mapped) empty e in
                simp (headless, tokenless, e, e') refl
          ]
    ]
  ]

  -- In strict mode a request is refused exactly where it has no header, no token, and no merchant is
  -- configured for the empty token; in every other case, strict or not, it has the merchant that the
  -- three rules give.
  pub identify_lem :
      (r : Resolver) (req : Identity)
      → identify r req ≡ (if r.strict && is_anonymous r req then none else some (resolve r req))
  unfolding identify
  identify_lem r req = elim (Bool-cases r.strict) [
    | inr lax ↦ simp (lax, identify) refl
    | inl strict ↦ simp (strict, identify) (anonymous_refused r req)
  ]
