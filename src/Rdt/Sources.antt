-- ===== src/Rdt/Sources.antt =====
-- internal/rdt/middleware.go: where the token that goes upstream comes from, handler by handler.
pub mod Routes
use smart_proxy.Base.{
  ℕ, ◌+◌, ◌≤◌, ◌≡◌, refl, sym, ap, ◌∙◌, ◌⊎◌, inl, inr, false, none, some, [], arith, nat_eq,
  text_eq, Bool-cases, Option-cases, true,
}
use smart_proxy.Base.Text.{Text, has_prefix, text}
use smart_proxy.Base.Dict.{lookup}
use smart_proxy.Rdt.TokenCache.{
  key_eq, key_beq_iff, get_lem, get_miss, Cache, CacheKey, CacheEntry, PiiOperation,
  build_cache_key,
}
use smart_proxy.Rdt.TokenCache as TokenCache
use smart_proxy.Rdt.Matcher.{RestrictedResource, match_pii_operation, to_restricted_resource}
use smart_proxy.Rdt.Middleware.{
  Request, Upstream, Middleware, serve_operation, mint_fresh, serve_concrete, serve_minted,
  mint_with_singleflight, pass, rdt_token_prefix, Served, with_token, serve_with_rdt, restored,
  reports_base_path,
}

-- A POST of a report whose body cannot be read to its end.
abbrev pub IsBroken : Request → Type 0
IsBroken r = (r.method ≡ text "POST") × (r.path ≡ reports_base_path) × (r.body_fails ≡ true)

module _ (up : Upstream) where
  -- Where a token that goes upstream for a request may come from: it is the client's, or it lives in
  -- the cache under the request's own merchant and operation, or the token API gave it out for the
  -- client's own token.
  pub data Source (m : Middleware) (r : Request) (now : ℕ) (token : Text) : Type 0 where
    own : token ≡ r.access_token → Source m r now token
    cached :
        (op : PiiOperation) (entry : CacheEntry)
        → has_prefix r.access_token rdt_token_prefix ≡ false
        → match_pii_operation r.method r.path ≡ some op
        → lookup (build_cache_key r.merchant_key op) m.cache.entries ≡ some entry
        → now + m.cache.safety_margin ≤ entry.expires_at
        → token ≡ entry.token
        → Source m r now token
    minted :
        (resource : RestrictedResource) (entry : CacheEntry)
        → has_prefix r.access_token rdt_token_prefix ≡ false
        → up.mint r.access_token resource ≡ some entry
        → token ≡ entry.token
        → Source m r now token

  -- What was served: the request went on with nothing changed but its token, whose source is known,
  -- or as a broken report's with the part of the body that was read; the response is the one it got.
  pub record Relayed (m : Middleware) (r : Request) (now : ℕ) (s : Served) : Type 0 where
    pub source : Source m r now s.sent.access_token
    pub same : (s.sent ≡ with_token r s.sent.access_token) ⊎ (IsBroken r × (s.sent ≡ restored r))
    pub answered : s.response ≡ up.next s.sent

  module _ (m : Middleware) (r : Request) (now : ℕ) where
    -- A request that goes on as it came, whatever the handler learned from it.
    pub kept : (s : Served) → s.sent ≡ r → s.response ≡ up.next s.sent → Relayed m r now s
    kept s e answered = record {
      source = own (ap (λ (q : Request). q.access_token) e);
      same = inl (e ∙ ap (λ (q : Request). with_token r q.access_token) (sym e));
      answered = answered;
    }

    -- a POST of a report
    pub sniffed :
        (s : Served)
        → r.method ≡ text "POST"
        → r.path ≡ reports_base_path
        → s.sent ≡ restored r
        → s.response ≡ up.next s.sent
        → Relayed m r now s
    sniffed s posted reporting e answered = elim (Bool-cases r.body_fails) [
      | inr whole ↦ kept s (e ∙ ap (λ b. record r { body_fails = b }) (sym whole)) answered
      | inl broken ↦ record {
        source = own (ap (λ (q : Request). q.access_token) e);
        same = inr ((posted, reporting, broken), e);
        answered = answered;
      }
    ]

    pub serve_concrete-Relayed :
        (m' : Middleware) (method path : Text)
        → has_prefix r.access_token rdt_token_prefix ≡ false
        → Relayed m r now (serve_concrete up m' r method path)
    unfolding serve_concrete
    serve_concrete-Relayed m' method path plain =
        let resource : RestrictedResource = record {
          method = method;
          path = path;
          data_elements = [];
        } in
        elim (Option-cases (up.mint r.access_token resource)) [
          | inl e ↦ rw (e, serve_concrete) (kept _ refl refl)
          | inr (entry, e) ↦
              rw (e, serve_concrete)
                (record {
                  source = minted resource entry plain e refl;
                  same = inl refl;
                  answered = refl;
                })
        ]

    mint_fresh-Source :
        (m' : Middleware) (op : PiiOperation) (key : CacheKey)
        → (entry : CacheEntry) → has_prefix r.access_token rdt_token_prefix ≡ false
        → (mint_fresh up m' r.access_token op key).1 ≡ some entry
        → Source m r now entry.token
    unfolding mint_fresh
    mint_fresh-Source m' op key entry plain h =
        minted (to_restricted_resource op) entry plain (ground arith) refl

    mint_with_singleflight-Source :
        (m' : Middleware) (op : PiiOperation) (key : CacheKey) (entry : CacheEntry)
        → has_prefix r.access_token rdt_token_prefix ≡ false
        → ((TokenCache.get m'.cache key now).1 ≡ none) ⊎ (op.cacheable ≡ false)
        → (mint_with_singleflight up m' r.access_token op key now).1 ≡ some entry
        → Source m r now entry.token
    unfolding mint_with_singleflight
    mint_with_singleflight-Source m' op key entry plain (inl missed) h =
        elim (Bool-cases op.cacheable) [
          | inl yes_cached ↦
              mint_fresh-Source (record m' { cache = (TokenCache.get m'.cache key now).0 }) op key
                entry plain (simp (yes_cached, missed, mint_with_singleflight) at h)
          | inr not_cached ↦
              mint_fresh-Source m' op key entry plain
                (simp (not_cached, mint_with_singleflight) at h)
        ]
    mint_with_singleflight-Source m' op key entry plain (inr not_cached) h =
        mint_fresh-Source m' op key entry plain (simp (not_cached, mint_with_singleflight) at h)

    serve_minted-Relayed :
        (m' : Middleware) (op : PiiOperation) (key : CacheKey)
        → has_prefix r.access_token rdt_token_prefix ≡ false
        → ((TokenCache.get m'.cache key now).1 ≡ none) ⊎ (op.cacheable ≡ false)
        → Relayed m r now (serve_minted up m' r op key now)
    unfolding serve_minted serve_with_rdt pass
    serve_minted-Relayed m' op key plain missed =
        elim (Option-cases (mint_with_singleflight up m' r.access_token op key now).1) [
          | inl e ↦ rw (e, serve_minted) (kept _ refl refl)
          | inr (entry, e) ↦
              rw (e, serve_minted)
                (record {
                  source = mint_with_singleflight-Source m' op key entry plain missed e;
                  same = inl refl;
                  answered = refl;
                })
        ]

    -- what is missed once is missed by the second look into the cache
    missed_again :
        (c : Cache) (key : CacheKey)
        → (TokenCache.get c key now).1 ≡ none
        → (TokenCache.get (TokenCache.get c key now).0 key now).1 ≡ none
    missed_again c key h =
        let gone : lookup key (TokenCache.get c key now).0.entries ≡ none =
          get_miss c key key now h ∙ ground (arith, key_beq_iff key key) in
        unfold TokenCache.get in rw (gone, TokenCache.get)

    pub serve_operation-Relayed :
        (op : PiiOperation)
        → has_prefix r.access_token rdt_token_prefix ≡ false
        → match_pii_operation r.method r.path ≡ some op
        → Relayed m r now (serve_operation up m r op now)
    unfolding serve_operation serve_with_rdt
    serve_operation-Relayed op plain matched =
        let key = build_cache_key r.merchant_key op in
        elim (Bool-cases op.cacheable) [
          | inl yes_cached ↦ elim (Option-cases (TokenCache.get m.cache key now).1) [
            | inl missed ↦
                simp (yes_cached, missed, serve_operation)
                  (serve_minted-Relayed (record m { cache = (TokenCache.get m.cache key now).0 }) op
                    key plain (inl (missed_again m.cache key missed)))
            | inr (entry, found) ↦
                let (stored, live, _) = get_lem m.cache key now entry found in
                simp (yes_cached, found, serve_operation)
                  (record {
                    source = cached op entry plain matched stored live refl;
                    same = inl refl;
                    answered = refl;
                  })
          ]
          | inr not_cached ↦
              simp (not_cached, serve_operation)
                (serve_minted-Relayed m op key plain (inr not_cached))
        ]
