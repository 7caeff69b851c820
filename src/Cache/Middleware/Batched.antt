-- ===== src/Cache/Middleware/Batched.antt =====
-- internal/cache/batch.go: a batch touches the cache under the keys of the request's merchant only, and
-- leaves only elements of the answer in it.
use smart_proxy.Cache.Middleware.Single.{Mine, Succeeds, IsElement, by_code, by_status}
use mathlib.Core.List.{Memᴰ}
use mathlib.Core.Bool.{false≢true}
use smart_proxy.Base.{
  ℕ, ◌≡◌, refl, ◌⊎◌, inl, inr, true, not, ◌||◌, List, [], ◌∷◌, ◌++◌, arith, ◌==◌, nat_eq, text_eq,
  text_beq_iff, Bool-cases, Option-cases, All, every, some, ◌∙◌, ap,
}
use smart_proxy.Base.Text.{Text, text}
use smart_proxy.Cache.Http.{HttpRequest, CacheConfig, Outside}
use smart_proxy.Cache.Memory.{MemoryCache, CachedResponse}
use smart_proxy.Cache.Tiers.{TierConfig}
use smart_proxy.Cache.Serve.{pass, is_success}
use smart_proxy.Cache.Batch.{
  BatchEndpointConfig, BatchBodyFormat, batch_format_wrapped, batch_format_bare, extract_key,
  lookup_batch_config,
}
use smart_proxy.Cache.Batch.Elements.{
  ElementEntry, handle_batch_cache, serve_elements, forward_batch, cache_response_elements,
  cache_elements, cache_element, lookup_elements, parse_batch_elements,
  parse_batch_response_elements, assemble_batch_response, is_success_element, is_cached,
}
use smart_proxy.Cache.Middleware.Own.{untouched, looked, stored}

module _ (out : Outside) (r : HttpRequest) (later : ℕ) (mc : MemoryCache) where
  -- an entry without a key, or with one of the merchant's
  abbrev IsNamed : ElementEntry → Type 0
  IsNamed entry = (entry.key ≡ []) ⊎ ((rest : Text) × (entry.key ≡ r.merchant_key ++ b':' ∷ rest))

  -- what the code's test of an element lets through
  is_success_element-Succeeds :
      (format : BatchBodyFormat) (elem : Text)
      → is_success_element out.json format elem ≡ true
      → Succeeds out.json format elem
  unfolding is_success_element
  is_success_element-Succeeds batch_format_wrapped elem h =
      elim (Option-cases (out.json.decode_status_code elem)) [
        | inl e ↦ absurd (false≢true (simp (e, is_success_element) at h))
        | inr (code, e) ↦
            let fine : is_success code ≡ true = simp (e, is_success_element) at h in
            by_code code e (ground arith) (ground arith)
      ]
  is_success_element-Succeeds batch_format_bare elem h =
      elim (Option-cases (out.json.decode_status elem)) [
        | inl e ↦ absurd (false≢true (simp (e, is_success_element) at h))
        | inr (status, e) ↦
            let fine : (status == text "Success") ≡ true = simp (e, is_success_element) at h in
            by_status (e ∙ ap some (ground (arith, text_beq_iff status (text "Success"))))
      ]

  -- an element of the answer, which is cached where it reports a success
  abbrev IsPart : BatchBodyFormat → Text → Type 0
  IsPart format elem =
      (resp : CachedResponse)
      → Succeeds out.json format elem
      → out.json.encode_raw elem ≡ some resp.body
      → IsElement out r resp

  cache_element-Own :
      {c : MemoryCache} (format : BatchBodyFormat) (elem : Text) (entry : ElementEntry) (ttl : ℕ)
      → is_success (out.next [] r).status_code ≡ true
      → IsPart format elem
      → IsNamed entry
      → Mine out r later mc c
      → Mine out r later mc (cache_element out.json c format elem entry ttl later r.request_id)
  unfolding cache_element
  cache_element-Own format elem entry ttl fine part named o =
      elim (Bool-cases (entry.key == [] || not (is_success_element out.json format elem))) [
        | inl e ↦ simp (e, cache_element) o
        | inr e ↦
            let succeeds : Succeeds out.json format elem =
              is_success_element-Succeeds format elem (ground arith) in
            elim (Option-cases (out.json.encode_raw elem)) [
              | inl f ↦ simp (e, f, cache_element) o
              | inr (body, f) ↦ elim named [
                | inl unnamed ↦ absurd (ground (arith, text_beq_iff entry.key []))
                | inr (rest, k) ↦
                    simp (e, f, cache_element)
                      (rw k (
                        stored rest _ ttl later (fine, refl, refl, refl, inr (part _ succeeds f))
                          o))
              ]
            ]
      ]

  cache_elements-Own :
      (format : BatchBodyFormat) (elems : List Text) (entries : List ElementEntry) {c : MemoryCache}
      (ttl : ℕ)
      → is_success (out.next [] r).status_code ≡ true
      → ((elem : Text) → Memᴰ elem elems → IsPart format elem)
      → All IsNamed entries
      → Mine out r later mc c
      → Mine out r later mc (cache_elements out.json c format elems entries ttl later r.request_id)
  unfolding cache_elements
  cache_elements-Own format [] entries ttl fine part named o = o
  cache_elements-Own format (elem ∷ elems) [] ttl fine part named o = o
  cache_elements-Own format (elem ∷ elems) (entry ∷ entries) ttl fine part (named, more) o =
      cache_elements-Own format elems entries ttl fine (λ e m. part e (Memᴰ.tail m)) more
        (cache_element-Own format elem entry ttl fine (part elem (Memᴰ.head refl)) named o)

  lookup_elements-Own :
      (bcfg : BatchEndpointConfig) (elems : List Text) {c : MemoryCache} (now : ℕ)
      → Mine out r later mc c
      → Mine out r later mc (lookup_elements out.json c r.merchant_key r.path bcfg elems now).0
        × All IsNamed (lookup_elements out.json c r.merchant_key r.path bcfg elems now).1
  unfolding lookup_elements
  lookup_elements-Own bcfg [] now o = (o, tt)
  lookup_elements-Own bcfg (elem ∷ elems) now o =
      elim (Option-cases (extract_key out.json bcfg.extract_key elem)) [
        | inl e ↦
            let (o', named) = lookup_elements-Own bcfg elems now o in
            simp (e, lookup_elements) (o', (inl refl, named))
        | inr (suffix, e) ↦
            let rest = text "BATCH:" ++ (r.path ++ b':' ∷ suffix) in
            let (o', named) = lookup_elements-Own bcfg elems now (looked rest now o) in
            simp (e, lookup_elements) (o', (inr (rest, refl), named))
      ]

  forward_batch-Own :
      {c : MemoryCache} (entries : List ElementEntry) (bcfg : BatchEndpointConfig)
      (tier : TierConfig) (cfg : CacheConfig)
      → lookup_batch_config r.path ≡ some bcfg
      → All IsNamed entries
      → Mine out r later mc c
      → Mine out r later mc (forward_batch out c r entries bcfg tier cfg later).cache
  unfolding forward_batch cache_response_elements
  forward_batch-Own entries bcfg tier cfg batch named o =
      elim (Bool-cases (is_success (out.next [] r).status_code)) [
        | inr e ↦ simp (e, forward_batch) o
        | inl e ↦
            elim (Option-cases (parse_batch_response_elements out.json (out.next [] r).body bcfg)) [
              | inl f ↦ simp (e, forward_batch, f, cache_response_elements) o
              | inr (elems, f) ↦
                  simp (e, forward_batch, f, cache_response_elements)
                    (cache_elements-Own bcfg.format elems entries _ e
                      (λ elem m resp succeeds encoded. record {
                        bcfg = bcfg;
                        elements = elems;
                        element = elem;
                        batch = batch;
                        parsed = f;
                        member = m;
                        succeeds = succeeds;
                        encoded = encoded;
                      })
                      named o)
            ]
      ]

  serve_elements-Own :
      {c : MemoryCache} (entries : List ElementEntry) (bcfg : BatchEndpointConfig)
      (tier : TierConfig) (cfg : CacheConfig)
      → lookup_batch_config r.path ≡ some bcfg
      → All IsNamed entries
      → Mine out r later mc c
      → Mine out r later mc (serve_elements out c r entries bcfg tier cfg later).cache
  unfolding serve_elements
  serve_elements-Own entries bcfg tier cfg batch named o =
      let forwarded = forward_batch-Own entries bcfg tier cfg batch named o in
      elim (Bool-cases (every is_cached entries)) [
        | inr e ↦ simp (e, serve_elements) forwarded
        | inl e ↦ elim (Option-cases (assemble_batch_response out.json entries bcfg)) [
          | inl f ↦ simp (e, serve_elements, f) forwarded
          | inr (body, f) ↦ simp (e, serve_elements, f) o
        ]
      ]

  pub handle_batch_cache-Own :
      (bcfg : BatchEndpointConfig) (tier : TierConfig) (cfg : CacheConfig) (now : ℕ)
      → lookup_batch_config r.path ≡ some bcfg
      → Mine out r later mc (handle_batch_cache out mc r bcfg tier cfg now later).cache
  unfolding handle_batch_cache pass
  handle_batch_cache-Own bcfg tier cfg now batch = elim (Option-cases r.body) [
    | inl e ↦ simp (e, handle_batch_cache) untouched
    | inr (body, e) ↦ elim (Option-cases (parse_batch_elements out.json body bcfg)) [
      | inl f ↦ simp (e, handle_batch_cache, f) untouched
      | inr ([], f) ↦ simp (e, handle_batch_cache, f) untouched
      | inr (elem ∷ elems, f) ↦
          let (o, named) = lookup_elements-Own bcfg (elem ∷ elems) now untouched in
          simp (e, handle_batch_cache, f) (serve_elements-Own _ bcfg tier cfg batch named o)
    ]
  ]
