-- ===== src/Cache/Batch/Hits.antt =====
-- When the handler of batch queries answers from the cache, and with what.
use smart_proxy.Base.{
  ℕ, ◌≡◌, refl, sym, ap, ◌∙◌, ◌↔◌, inl, inr, true, false, some, List, [], ◌∷◌, nat_eq, text_eq,
  Bool-cases, Option-cases, every,
}
use smart_proxy.Base.Text.{Text}
use smart_proxy.Cache.Http.{HttpRequest, CacheConfig, Outside, JsonCodec}
use smart_proxy.Cache.Memory.{MemoryCache, CachedResponse, get}
use smart_proxy.Cache.Memory.Invariant.{IsConsistent}
use smart_proxy.Cache.Memory.Steps.{get-IsConsistent}
use smart_proxy.Cache.Reads.{get-get}
use smart_proxy.Cache.Tiers.{TierConfig}
use smart_proxy.Cache.Batch.{BatchEndpointConfig, extract_key, batch_element_cache_key}
use smart_proxy.Cache.Batch.Elements.{
  ElementEntry, is_cached, handle_batch_cache, serve_elements, forward_batch, lookup_elements,
  parse_batch_elements, assemble_batch_response, cached_bodies, encode_elements, hit_reply,
}

module _ (json : JsonCodec) (merchant_key path : Text) (bcfg : BatchEndpointConfig) (now : ℕ) where
  -- `bodies` are what the cache holds for `elements`, one by one
  pub data FromCache (mc : MemoryCache) : List Text → List Text → Type 0 where
    nothing : FromCache mc [] []
    next :
        {elem suffix : Text} {resp : CachedResponse} {elements bodies : List Text}
        → extract_key json bcfg.extract_key elem ≡ some suffix
        → (get mc (batch_element_cache_key merchant_key path suffix) now).1 ≡ some resp
        → FromCache mc elements bodies
        → FromCache mc (elem ∷ elements) (resp.body ∷ bodies)

  -- a lookup in between makes no difference
  FromCache-get :
      {mc : MemoryCache} (k : Text) {elements bodies : List Text}
      → IsConsistent mc
      → FromCache mc elements bodies
      → FromCache (get mc k now).0 elements bodies
  FromCache-get k w nothing = nothing
  FromCache-get {mc} k w (next e found more) =
      next e (get-get mc _ k now w ∙ found) (FromCache-get k w more)

  get-FromCache :
      (mc : MemoryCache) (k : Text) {elements bodies : List Text}
      → IsConsistent mc
      → FromCache (get mc k now).0 elements bodies
      → FromCache mc elements bodies
  get-FromCache mc k w nothing = nothing
  get-FromCache mc k w (next e found more) =
      next e (sym (get-get mc _ k now w) ∙ found) (get-FromCache mc k w more)

  lookup_elements_found :
      (mc : MemoryCache) (elements : List Text)
      → IsConsistent mc
      → every is_cached (lookup_elements json mc merchant_key path bcfg elements now).1 ≡ true
      → (bodies : List Text) × (cached_bodies json
            (lookup_elements json mc merchant_key path bcfg elements now).1
          ≡ some bodies)
        × FromCache mc elements bodies
  unfolding lookup_elements cached_bodies every
  lookup_elements_found mc [] w h = ([], refl, nothing)
  lookup_elements_found mc (elem ∷ elements) w h =
      elim (Option-cases (extract_key json bcfg.extract_key elem)) [
        | inl e ↦ let missed : false ≡ true = rw (e, lookup_elements) at h in cc
        | inr (suffix, e) ↦
            let key = batch_element_cache_key merchant_key path suffix in
            elim (Option-cases (get mc key now).1) [
              | inl missed ↦ let never : false ≡ true = rw (e, lookup_elements, missed) at h in cc
              | inr (resp, found) ↦
                  let (bodies, kept, from) =
                    lookup_elements_found (get mc key now).0 elements
                      (get-IsConsistent mc key now w) (rw (e, lookup_elements, found) at h) in
                  (
                    resp.body ∷ bodies,
                    rw (e, lookup_elements) (rw (found, cached_bodies) (rw kept refl)),
                    next e found (get-FromCache mc key w from),
                  )
            ]
      ]

  found_lookup_elements :
      (elements : List Text) (mc : MemoryCache) {bodies : List Text}
      → IsConsistent mc
      → FromCache mc elements bodies
      → (every is_cached (lookup_elements json mc merchant_key path bcfg elements now).1 ≡ true)
        × (cached_bodies json (lookup_elements json mc merchant_key path bcfg elements now).1
            ≡ some bodies)
  unfolding lookup_elements cached_bodies every
  found_lookup_elements [] mc w nothing = (refl, refl)
  found_lookup_elements (elem ∷ elements) mc w (next {suffix = suffix} e found more) =
      let key = batch_element_cache_key merchant_key path suffix in
      let (all, bodies) =
        found_lookup_elements elements (get mc key now).0 (get-IsConsistent mc key now w)
          (FromCache-get key w more) in
      (
        rw (e, lookup_elements) (rw found all),
        rw (e, lookup_elements) (rw (found, cached_bodies) (rw bodies refl)),
      )

module _ (out : Outside) (r : HttpRequest) (bcfg : BatchEndpointConfig) (tier : TierConfig)
    (cfg : CacheConfig) (now later : ℕ) (body elem : Text) (elements : List Text) where
  serve_elements_hit :
      (c : MemoryCache) (entries : List ElementEntry) (bodies : List Text) (answer : Text)
      → every is_cached entries ≡ true
      → cached_bodies out.json entries ≡ some bodies
      → encode_elements out.json bcfg bodies ≡ some answer
      → serve_elements out c r entries bcfg tier cfg later
        ≡ record { cache = c; forwarded = false; reply = hit_reply out answer }
  unfolding serve_elements assemble_batch_response
  serve_elements_hit c entries bodies answer all kept encoded =
      simp (all, kept, encoded, serve_elements, assemble_batch_response) refl

  serve_elements_kept :
      (c : MemoryCache) (entries : List ElementEntry)
      → (serve_elements out c r entries bcfg tier cfg later).forwarded ≡ false
      → (every is_cached entries ≡ true)
        × ((bodies : List Text)
            → cached_bodies out.json entries ≡ some bodies
            → (answer : Text) × (encode_elements out.json bcfg bodies ≡ some answer))
  unfolding serve_elements assemble_batch_response forward_batch
  serve_elements_kept c entries h = elim (Bool-cases (every is_cached entries)) [
    | inr e ↦ let sent : true ≡ false = rw (e, serve_elements) at h in cc
    | inl e ↦ (
      e,
      λ bodies kept. elim (Option-cases (encode_elements out.json bcfg bodies)) [
        | inr found ↦ found
        | inl f ↦
            let sent : (serve_elements out c r entries bcfg tier cfg later).forwarded ≡ true =
              simp (e, kept, f, serve_elements, assemble_batch_response) refl in
            cc
      ],
    )
  ]

  module _ (mc : MemoryCache) (w : IsConsistent mc) (readable : r.body ≡ some body)
      (parsed : parse_batch_elements out.json body bcfg ≡ some (elem ∷ elements)) where
    handled :
        handle_batch_cache out mc r bcfg tier cfg now later
        ≡ serve_elements out
            (lookup_elements out.json mc r.merchant_key r.path bcfg (elem ∷ elements) now).0
            r
            (lookup_elements out.json mc r.merchant_key r.path bcfg (elem ∷ elements) now).1
            bcfg
            tier
            cfg
            later
    unfolding handle_batch_cache
    handled = simp (readable, parsed, handle_batch_cache) refl

    hit_of :
        (bodies : List Text) (answer : Text)
        → FromCache out.json r.merchant_key r.path bcfg now mc (elem ∷ elements) bodies
        → encode_elements out.json bcfg bodies ≡ some answer
        → ((handle_batch_cache out mc r bcfg tier cfg now later).forwarded ≡ false)
          × ((handle_batch_cache out mc r bcfg tier cfg now later).reply ≡ hit_reply out answer)
    hit_of bodies answer from encoded =
        let (all, kept) =
          found_lookup_elements out.json r.merchant_key r.path bcfg now (elem ∷ elements) mc w
            from in
        let served = handled ∙ serve_elements_hit _ _ bodies answer all kept encoded in
        rw served (refl, refl)

    -- Which batches are answered from the cache, and how. A batch that can be read, of at least one
    -- element, is not sent upstream exactly where the cache, whose parts agree, has an answer for each
    -- of its elements, the encoder puts these together, in the order of the elements, and the client
    -- gets the result with the status 200.
    pub handle_batch_cache_hit :
        ((handle_batch_cache out mc r bcfg tier cfg now later).forwarded ≡ false) ↔ (
          (bodies : List Text) × (answer : Text) × FromCache out.json r.merchant_key r.path bcfg now
            mc
            (elem ∷ elements)
            bodies
          × (encode_elements out.json bcfg bodies ≡ some answer)
          × ((handle_batch_cache out mc r bcfg tier cfg now later).reply ≡ hit_reply out answer))
    handle_batch_cache_hit = (
      (λ h.
          let (all, encodes) = serve_elements_kept _ _ (ap (λ s. s.forwarded) (sym handled) ∙ h) in
          let (bodies, kept, from) =
            lookup_elements_found out.json r.merchant_key r.path bcfg now mc (elem ∷ elements) w
              all in
          let (answer, encoded) = encodes bodies kept in
          (bodies, answer, from, encoded, (hit_of bodies answer from encoded).1)),
      (λ (bodies, answer, from, encoded, served). (hit_of bodies answer from encoded).0),
    )
