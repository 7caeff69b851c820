-- ===== src/Cache/Middleware/Single.antt =====
-- internal/cache/middleware.go: a single lookup, and a write, touch the cache under the keys of the
-- request's merchant only.
use smart_proxy.Cache.Batch.Elements.{parse_batch_response_elements}
use smart_proxy.Cache.Batch.{
  BatchEndpointConfig, BatchBodyFormat, lookup_batch_config, batch_format_wrapped,
  batch_format_bare,
}
use mathlib.Core.List.{Memᴰ}
use smart_proxy.Base.{
  ℕ, ◌≡◌, refl, inl, inr, Bool, true, false, ◌||◌, [], ◌∷◌, ◌++◌, if◌then◌else◌, ◌==◌, nat_eq,
  text_eq, Bool-cases, Option-cases, ◌⊎◌, List, some, ◌≤◌, ◌<◌,
}
use smart_proxy.Base.Text.{Text, text}
use smart_proxy.Cache.Http.{HttpRequest, CacheConfig, Outside, JsonCodec}
use smart_proxy.Cache.Memory.{MemoryCache, CachedResponse, get}
use smart_proxy.Cache.Invalidation.{
  invalidate_on_mutation, invalidate_batch_listing_offers, listing_sku,
}
use smart_proxy.Cache.Tiers.{TierConfig}
use smart_proxy.Cache.Serve.{serve_key, record_and_cache, is_success}
use smart_proxy.Cache.Middleware.Own.{Own, untouched, looked, stored, dropped}

-- An element of a batch that reports a success of its own: in the wrapped format a status code from
-- 200 to 299, in the bare one the status Success.
pub data Succeeds (json : JsonCodec) : BatchBodyFormat → Text → Type 0 where
  by_code :
      {elem : Text} (code : ℕ)
      → json.decode_status_code elem ≡ some code
      → 200 ≤ code
      → code < 300
      → Succeeds json batch_format_wrapped elem
  by_status :
      {elem : Text}
      → json.decode_status elem ≡ some (text "Success")
      → Succeeds json batch_format_bare elem

-- The response is the whole of the next handler's answer.
abbrev pub IsAnswer : Outside → HttpRequest → CachedResponse → Type 0
IsAnswer out r resp =
    (resp.status_code ≡ (out.next [] r).status_code)
    × (resp.headers ≡ (out.next [] r).headers)
    × (resp.body ≡ (out.next [] r).body)

-- The response is one of the elements of the next handler's answer to a batch, which reports a
-- success of its own.
pub record IsElement (out : Outside) (r : HttpRequest) (resp : CachedResponse) : Type 0 where
  pub bcfg : BatchEndpointConfig
  pub elements : List Text
  pub element : Text
  pub batch : lookup_batch_config r.path ≡ some bcfg
  pub parsed : parse_batch_response_elements out.json (out.next [] r).body bcfg ≡ some elements
  pub member : Memᴰ element elements
  pub succeeds : Succeeds out.json bcfg.format element
  pub encoded : out.json.encode_raw element ≡ some resp.body

-- What a request may leave in the cache: a response of status 2xx, recorded now, with its id, and
-- only where the next handler answers it with a status 2xx. It is that answer, or an element of it.
abbrev pub Recorded : Outside → HttpRequest → ℕ → CachedResponse → Type 0
Recorded out r later resp =
    (is_success (out.next [] r).status_code ≡ true)
    × (is_success resp.status_code ≡ true)
    × (resp.source_request_id ≡ r.request_id)
    × (resp.cached_at ≡ later)
    × (IsAnswer out r resp ⊎ IsElement out r resp)

pub if_rule {ℓ κ} :
    {A : Type ℓ} (P : A → Type κ) {x y : A} (b : Bool) → P x → P y → P (if b then x else y)
if_rule P true p q = p
if_rule P false p q = q

-- what a request does under its merchant's keys
abbrev pub Mine : Outside → HttpRequest → ℕ → MemoryCache → MemoryCache → Type 0
Mine out r later mc = Own r.merchant_key (Recorded out r later) mc

module _ (out : Outside) (r : HttpRequest) (later : ℕ) (mc : MemoryCache) where
  pub invalidate_on_mutation-Own :
      Mine out r later mc (invalidate_on_mutation mc r.merchant_key r.method r.path)
  unfolding invalidate_on_mutation invalidate_batch_listing_offers
  invalidate_on_mutation-Own = elim (Bool-cases (r.method == text "GET")) [
    | inl e ↦ simp (e, invalidate_on_mutation) untouched
    | inr e ↦ elim (Bool-cases (r.method == text "PUT" || r.method == text "PATCH")) [
      | inr f ↦ simp (e, f, invalidate_on_mutation) (dropped _ untouched)
      | inl f ↦ elim (Option-cases (listing_sku r.path)) [
        | inl g ↦ simp (e, f, g, invalidate_on_mutation) (dropped _ untouched)
        | inr (sku, g) ↦ simp (e, f, g, invalidate_on_mutation) (dropped _ (dropped _ untouched))
      ]
    ]
  ]

  record_and_cache-Own :
      {c : MemoryCache} (rest : Text) (tier : TierConfig) (cfg : CacheConfig)
      → Mine out r later mc c
      → Mine out r later mc
          (record_and_cache out c (r.merchant_key ++ b':' ∷ rest) r tier cfg later).cache
  unfolding record_and_cache
  record_and_cache-Own rest tier cfg o =
      elim (Bool-cases (is_success (out.next [] r).status_code)) [
        | inl e ↦
            simp (e, record_and_cache)
              (stored rest _ _ later (e, e, refl, refl, inl (refl, refl, refl)) o)
        | inr e ↦ simp (e, record_and_cache) o
      ]

  pub serve_key-Own :
      (rest : Text) (tier : TierConfig) (cfg : CacheConfig) (now : ℕ)
      → Mine out r later mc
          (serve_key out mc (r.merchant_key ++ b':' ∷ rest) r tier cfg now later).cache
  unfolding serve_key
  serve_key-Own rest tier cfg now =
      let key = r.merchant_key ++ b':' ∷ rest in
      let o : Mine out r later mc (get mc key now).0 = looked rest now untouched in
      elim (Option-cases (get mc key now).1) [
        | inl e ↦ simp (e, serve_key) (record_and_cache-Own rest tier cfg o)
        | inr (cached, e) ↦ simp (e, serve_key) o
      ]
