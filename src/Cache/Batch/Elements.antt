-- ===== src/Cache/Batch/Elements.antt =====
-- internal/cache/batch.go: the handler of batch queries. The client gets a batch from the cache if all
-- of its elements are there, and otherwise what the next handler says to the whole of it.
use smart_proxy.Base.{
  ℕ, Bool, true, false, not, ◌||◌, Option, none, some, List, [], ◌∷◌, if◌then◌else◌, ◌==◌, nat_eq,
  text_eq, every,
}
use smart_proxy.Base.Text.{Text, text}
use smart_proxy.Base.Dict.{lookup}
use smart_proxy.Cache.Http.{
  HttpRequest, Reply, CacheConfig, Served, Outside, JsonCodec, failed, nil_map, object, set_header,
}
use smart_proxy.Cache.Memory.{MemoryCache, CachedResponse}
use smart_proxy.Cache.Memory as Memory
use smart_proxy.Cache.Tiers.{TierConfig}
use smart_proxy.Cache.Serve.{pass, is_success, miss_reply, cache_header, ttl_of}
use smart_proxy.Cache.Batch.{
  BatchEndpointConfig, BatchBodyFormat, batch_format_wrapped, batch_format_bare, extract_key,
  batch_element_cache_key,
}

-- `key` is empty where none could be extracted
pub record ElementEntry : Type 0 where
  pub raw : Text
  pub key : Text
  pub cached : Option CachedResponse

abbrev pub is_cached : ElementEntry → Bool
is_cached e = elim e.cached [ none ↦ false | some _ ↦ true ]

module _ (json : JsonCodec) where
  -- the array under a field of the body, or the body
  unfoldable pub parse_elements : BatchBodyFormat → Text → Text → Option (List Text)
  unfolding lookup
  parse_elements batch_format_bare field body = json.decode_array body
  parse_elements batch_format_wrapped field body = elim (json.decode_object body) [
    | failed ↦ none
    | nil_map ↦ none
    | object wrapper ↦ elim (lookup field wrapper) [
      | none ↦ none
      | some arr ↦ json.decode_array arr
    ]
  ]

  abbrev pub parse_batch_elements : Text → BatchEndpointConfig → Option (List Text)
  parse_batch_elements body bcfg = parse_elements bcfg.format bcfg.wrap_req body

  abbrev pub parse_batch_response_elements : Text → BatchEndpointConfig → Option (List Text)
  parse_batch_response_elements body bcfg = parse_elements bcfg.format bcfg.wrap_resp body

  unfoldable pub is_success_element : BatchBodyFormat → Text → Bool
  is_success_element batch_format_wrapped elem = elim (json.decode_status_code elem) [
    | none ↦ false
    | some code ↦ is_success code
  ]
  is_success_element batch_format_bare elem = elim (json.decode_status elem) [
    | none ↦ false
    | some status ↦ status == text "Success"
  ]

  -- the bodies of the cached elements, `none` where one is not cached
  unfoldable pub cached_bodies : List ElementEntry → Option (List Text)
  cached_bodies [] = some []
  cached_bodies (e ∷ entries) = elim e.cached [
    | none ↦ none
    | some resp ↦ elim (cached_bodies entries) [
      | none ↦ none
      | some bodies ↦ some (resp.body ∷ bodies)
    ]
  ]

  abbrev pub encode_elements : BatchEndpointConfig → List Text → Option Text
  encode_elements bcfg elements = elim bcfg.format [
    | batch_format_bare ↦ json.encode_array elements
    | batch_format_wrapped ↦ elim (json.encode_array elements) [
      | none ↦ none
      | some arr ↦ some (json.encode_object ((bcfg.wrap_resp, arr) ∷ []))
    ]
  ]

  unfoldable pub assemble_batch_response : List ElementEntry → BatchEndpointConfig → Option Text
  unfolding cached_bodies
  assemble_batch_response entries bcfg = elim (cached_bodies entries) [
    | none ↦ none
    | some elements ↦ encode_elements bcfg elements
  ]

  -- the loop that extracts the keys and looks them up
  unfoldable pub lookup_elements :
      MemoryCache
      → Text
      → Text
      → BatchEndpointConfig
      → List Text
      → ℕ
      → MemoryCache × List ElementEntry
  unfolding extract_key
  lookup_elements mc merchant_key path bcfg [] now = (mc, [])
  lookup_elements mc merchant_key path bcfg (elem ∷ elements) now =
      elim (extract_key json bcfg.extract_key elem) [
        | none ↦
            let (mc', entries) = lookup_elements mc merchant_key path bcfg elements now in
            (mc', (record { raw = elem; key = []; cached = none }) ∷ entries)
        | some suffix ↦
            let key = batch_element_cache_key merchant_key path suffix in
            let found = Memory.get mc key now in
            let (mc', entries) = lookup_elements found.0 merchant_key path bcfg elements now in
            (mc', (record { raw = elem; key = key; cached = found.1 }) ∷ entries)
      ]

  abbrev element_response : Text → ℕ → ℕ → Text → CachedResponse
  element_response body ttl later request_id = record {
    status_code = 200;
    headers = (text "Content-Type", text "application/json" ∷ []) ∷ [];
    body = body;
    cached_at = later;
    ttl = ttl;
    source_request_id = request_id;
  }

  -- one round of the loop over the elements of the answer
  unfoldable pub cache_element :
      MemoryCache → BatchBodyFormat → Text → ElementEntry → ℕ → ℕ → Text → MemoryCache
  unfolding is_success_element
  cache_element mc format resp_elem entry ttl later request_id =
      if entry.key == [] || not (is_success_element format resp_elem)
      then mc
      else elim (json.encode_raw resp_elem) [
        | none ↦ mc
        | some body ↦ Memory.set mc entry.key (element_response body ttl later request_id) ttl later
      ]

  -- elements of the answer beyond those of the request are skipped
  unfoldable pub cache_elements :
      MemoryCache → BatchBodyFormat → List Text → List ElementEntry → ℕ → ℕ → Text → MemoryCache
  unfolding cache_element
  cache_elements mc format [] entries ttl later request_id = mc
  cache_elements mc format (resp_elem ∷ resp_elements) [] ttl later request_id = mc
  cache_elements mc format (resp_elem ∷ resp_elements) (entry ∷ entries) ttl later request_id =
      cache_elements (cache_element mc format resp_elem entry ttl later request_id) format
        resp_elements entries ttl later request_id

module _ (out : Outside) where
  unfoldable pub cache_response_elements :
      MemoryCache
      → HttpRequest
      → Text
      → List ElementEntry
      → BatchEndpointConfig
      → TierConfig
      → CacheConfig
      → ℕ
      → MemoryCache
  unfolding cache_elements parse_elements
  cache_response_elements mc r body entries bcfg tier cfg later =
      elim (parse_batch_response_elements out.json body bcfg) [
        | none ↦ mc
        | some resp_elements ↦
            cache_elements out.json mc bcfg.format resp_elements entries
              (ttl_of out r tier cfg later) later r.request_id
      ]

  abbrev pub hit_reply : Text → Reply
  hit_reply assembled = record {
    status_code = 200;
    headers =
        set_header (set_header [] (text "Content-Type") (text "application/json")) cache_header
          (text "HIT");
    body = assembled;
  }

  unfoldable pub forward_batch :
      MemoryCache
      → HttpRequest
      → List ElementEntry
      → BatchEndpointConfig
      → TierConfig
      → CacheConfig
      → ℕ
      → Served
  unfolding cache_response_elements miss_reply
  forward_batch mc r entries bcfg tier cfg later =
      let rec = out.next [] r in
      record {
        cache =
            if is_success rec.status_code
            then cache_response_elements mc r rec.body entries bcfg tier cfg later
            else mc;
        forwarded = true;
        reply = miss_reply rec;
      }

  -- what is done once the elements are looked up
  unfoldable pub serve_elements :
      MemoryCache
      → HttpRequest
      → List ElementEntry
      → BatchEndpointConfig
      → TierConfig
      → CacheConfig
      → ℕ
      → Served
  unfolding assemble_batch_response forward_batch set_header
  serve_elements mc r entries bcfg tier cfg later =
      let upstream = forward_batch mc r entries bcfg tier cfg later in
      if every is_cached entries
      then elim (assemble_batch_response out.json entries bcfg) [
        | some assembled ↦ record { cache = mc; forwarded = false; reply = hit_reply assembled }
        | none ↦ upstream
      ]
      else upstream

  unfoldable pub handle_batch_cache :
      MemoryCache → HttpRequest → BatchEndpointConfig → TierConfig → CacheConfig → ℕ → ℕ → Served
  unfolding pass parse_elements lookup_elements serve_elements every
  handle_batch_cache mc r bcfg tier cfg now later = elim r.body [
    | none ↦ pass out mc [] r
    | some body ↦ elim (parse_batch_elements out.json body bcfg) [
      | none ↦ pass out mc [] r
      | some [] ↦ pass out mc [] r
      | some (elem ∷ elements) ↦
          let (mc', entries) =
            lookup_elements out.json mc r.merchant_key r.path bcfg (elem ∷ elements) now in
          serve_elements mc' r entries bcfg tier cfg later
    ]
  ]
