-- ===== src/Rdt/Forwarding.antt =====
-- What internal/rdt/middleware.go sends upstream, and with whose token.
use smart_proxy.Base.{
  ℕ, ◌+◌, ◌<◌, ◌≡◌, refl, sym, ◌∙◌, inl, inr, true, none, some, arith, if◌then◌else◌, ◌==◌, nat_eq,
  text_eq, Bool-cases, ◌⊎◌,
}
use smart_proxy.Base.Text.{Text, text, has_prefix}
use smart_proxy.Base.Dict.{lookup}
use smart_proxy.Rdt.TokenCache.{key_eq, CacheEntry, PiiOperation, build_cache_key}
use mathlib.Core.Bool.{false≢true}
use smart_proxy.Rdt.Matcher.{RestrictedResource, match_pii_operation}
use smart_proxy.Rdt.Middleware.{
  Request, Upstream, Middleware, stripped, handle, pass, rdt_token_prefix, with_token, restored,
}
use smart_proxy.Rdt.Sources.{Source, own, cached, minted, IsBroken}
use smart_proxy.Rdt.Sources.Routes.{auto_rdt-Relayed, handle_force_rdt-Relayed}

module _ (up : Upstream) where
  unstripped :
      (m : Middleware) (r : Request) (now : ℕ) (token : Text)
      → Source up m (stripped r) now token
      → Source up m r now token
  unstripped m r now token (own e) = own e
  unstripped m r now token (cached op entry p a b c e) = cached op entry p a b c e
  unstripped m r now token (minted resource entry p a e) = minted resource entry p a e

  -- The request as the handler passes it on, but for its token.
  abbrev pub onward : Middleware → Request → Request
  onward m r = if m.enabled then stripped r else r

  unbroken :
      (r : Request) {sent : Request}
      → (sent ≡ with_token (stripped r) sent.access_token)
        ⊎ (IsBroken r × (sent ≡ restored (stripped r)))
      → (sent ≡ with_token (stripped r) sent.access_token)
        ⊎ ((true ≡ true) × IsBroken r × (sent ≡ restored (stripped r)))
  unbroken r (inl e) = inl e
  unbroken r (inr (broken, e)) = inr (refl, broken, e)

  -- Every request goes upstream, and the client gets the response to it. Nothing is changed but the
  -- access token and the override header, which an enabled handler removes and a disabled one passes
  -- on; save that an enabled handler may send a POST of a report whose body breaks off with the bytes
  -- that came, and its own token, as if it were whole. And the token is the
  -- client's own, or was cached under the request's own merchant and operation and is alive, or was
  -- issued by the token API for the client's own token.
  pub handle_relays :
      (m : Middleware) (r : Request) (now : ℕ)
      → Source up m r now (handle up m r now).sent.access_token
        × (((handle up m r now).sent
              ≡ with_token (onward m r) (handle up m r now).sent.access_token)
            ⊎ ((m.enabled ≡ true)
                × IsBroken r
                × ((handle up m r now).sent ≡ restored (stripped r))))
        × ((handle up m r now).response ≡ up.next (handle up m r now).sent)
  unfolding handle pass
  handle_relays m r now = elim (Bool-cases m.enabled) [
    | inr off ↦ simp (off, handle) (own refl, inl refl, refl)
    | inl on ↦ elim (Bool-cases (r.force_rdt == text "false")) [
      | inl skip ↦ simp (on, handle, skip) (own refl, inl refl, refl)
      | inr e ↦ elim (Bool-cases (r.force_rdt == text "true")) [
        | inl forced ↦
            let v = handle_force_rdt-Relayed up m (stripped r) now in
            simp (on, handle, e, forced)
              (unstripped m r now _ v.source, unbroken r v.same, v.answered)
        | inr auto ↦
            let v = auto_rdt-Relayed up m (stripped r) now in
            simp (on, handle, e, auto)
              (unstripped m r now _ v.source, unbroken r v.same, v.answered)
      ]
    ]
  ]

  -- Where a client sends a restricted token itself, that token goes upstream.
  pub handle_keeps_rdt :
      (m : Middleware) (r : Request) (now : ℕ)
      → has_prefix r.access_token rdt_token_prefix ≡ true
      → (handle up m r now).sent.access_token ≡ r.access_token
  handle_keeps_rdt m r now h = go (handle_relays m r now).0
    where
      go : {token : Text} → Source up m r now token → token ≡ r.access_token
      go (own e) = e
      go (cached op entry p a b c e) = absurd (false≢true (sym p ∙ h))
      go (minted resource entry p a e) = absurd (false≢true (sym p ∙ h))

  -- The handler fails open: where the token API gives out nothing and the cache has nothing alive
  -- for the request's merchant and operation, the client's own token goes upstream.
  pub handle_fails_open :
      (m : Middleware) (r : Request) (now : ℕ)
      → ((resource : RestrictedResource) → up.mint r.access_token resource ≡ none)
      → ((op : PiiOperation) (entry : CacheEntry)
          → match_pii_operation r.method r.path ≡ some op
          → lookup (build_cache_key r.merchant_key op) m.cache.entries ≡ some entry
          → entry.expires_at < now + m.cache.safety_margin)
      → (handle up m r now).sent.access_token ≡ r.access_token
  handle_fails_open m r now no_mint no_live = go (handle_relays m r now).0
    where
      go : {token : Text} → Source up m r now token → token ≡ r.access_token
      go (own e) = e
      go (cached op entry p matched stored live e) =
          absurd (omega (arith, no_live op entry matched stored, live))
      go (minted resource entry p a e) = cc (no_mint resource)
