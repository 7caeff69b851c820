-- ===== src/Rdt/Rejection.antt =====
-- internal/rdt/middleware.go: the cache after a refusal by upstream.
use smart_proxy.Rdt.Matcher.{match_pii_operation}
use smart_proxy.Rdt.TokenCache.{
  CacheKey, invalidate, key_eq, key_beq_iff, PiiOperation, build_cache_key,
}
use smart_proxy.Base.{
  ℕ, ◌≡◌, refl, ◌≢◌, inl, inr, Bool, true, ◌||◌, none, some, arith, ◌==◌, nat_eq, text_eq,
  Bool-cases, Option-cases,
}
use smart_proxy.Base.Text.{Text, has_prefix}
use smart_proxy.Base.Dict.{lookup, lookup-erase}
use smart_proxy.Rdt.TokenCache as TokenCache
use smart_proxy.Rdt.Middleware.{
  Request, Upstream, serve_minted, handle_pii_operation, serve_with_rdt, serve_operation, Served,
  Middleware, pass, mint_with_singleflight, rdt_token_prefix,
}

abbrev pub is_refusal : ℕ → Bool
is_refusal status = status == 403 || status == 401

module _ (up : Upstream) (r : Request) where
  -- If the request went out with another token than the client's and was refused, nothing is stored
  -- under the key any more.
  abbrev Forgets : CacheKey → Served → Type 0
  Forgets key s =
      s.sent.access_token ≢ r.access_token
      → is_refusal s.response.status ≡ true
      → lookup key s.state.cache.entries ≡ none

  serve_with_rdt-Forgets :
      (m : Middleware) (token : Text) (key : CacheKey)
      → Forgets key (serve_with_rdt up m r token key)
  unfolding serve_with_rdt invalidate
  serve_with_rdt-Forgets m token key changed refused =
      rw refused (ground (arith, lookup-erase key key m.cache.entries, key_beq_iff key key))

  serve_minted-Forgets :
      (m : Middleware) (op : PiiOperation) (key : CacheKey) (now : ℕ)
      → Forgets key (serve_minted up m r op key now)
  unfolding serve_minted pass
  serve_minted-Forgets m op key now =
      elim (Option-cases (mint_with_singleflight up m r.access_token op key now).1) [
        | inl e ↦ rw (e, serve_minted) (λ changed refused. absurd (changed refl))
        | inr (entry, e) ↦
            rw (e, serve_minted)
              (serve_with_rdt-Forgets (mint_with_singleflight up m r.access_token op key now).0
                entry.token key)
      ]

  serve_operation-Forgets :
      (m : Middleware) (op : PiiOperation) (now : ℕ)
      → Forgets (build_cache_key r.merchant_key op) (serve_operation up m r op now)
  unfolding serve_operation
  serve_operation-Forgets m op now =
      let key = build_cache_key r.merchant_key op in
      elim (Bool-cases op.cacheable) [
        | inl yes_cached ↦ elim (Option-cases (TokenCache.get m.cache key now).1) [
          | inl missed ↦
              simp (yes_cached, missed, serve_operation) (serve_minted-Forgets _ op key now)
          | inr (entry, found) ↦
              simp (yes_cached, found, serve_operation)
                (serve_with_rdt-Forgets (record m { cache = (TokenCache.get m.cache key now).0 })
                  entry.token key)
        ]
        | inr not_cached ↦ simp (not_cached, serve_operation) (serve_minted-Forgets m op key now)
      ]

  -- On the path of the restricted operations: where a request went out with a token other than the
  -- client's and the answer was 401 or 403, the cache holds no token for its merchant and operation
  -- afterwards, so the next such request gets a fresh one.
  pub handle_pii_operation_refused :
      (m : Middleware) (now : ℕ) (op : PiiOperation)
      → match_pii_operation r.method r.path ≡ some op
      → (handle_pii_operation up m r now).sent.access_token ≢ r.access_token
      → is_refusal (handle_pii_operation up m r now).response.status ≡ true
      → lookup
          (build_cache_key r.merchant_key op)
          (handle_pii_operation up m r now).state.cache.entries
        ≡ none
  unfolding handle_pii_operation pass
  handle_pii_operation_refused m now op matched =
      elim (Bool-cases (has_prefix r.access_token rdt_token_prefix)) [
        | inl rdt ↦
            rw (matched, handle_pii_operation, rdt) (λ changed refused. absurd (changed refl))
        | inr plain ↦ rw (matched, handle_pii_operation, plain) (serve_operation-Forgets m op now)
      ]
