-- ===== src/Cache/Serve.antt =====
-- internal/cache/middleware.go: answering from the cache, and recording an answer on its way. `now` is
-- the clock when the request comes, `later` when the next handler has returned.
use smart_proxy.Base.{
  ℕ, ◌-◌, ◌/◌, Bool, true, false, ◌&&◌, none, some, [], ltb, leb, if◌then◌else◌, ◌==◌, nat_eq,
  text_eq,
}
use smart_proxy.Base.Text.{Text, text}
use smart_proxy.Cache.Http.{
  HttpRequest, Reply, Headers, CacheConfig, Served, Outside, set_header, copy_headers, decimal,
}
use smart_proxy.Cache.Memory.{MemoryCache, CachedResponse}
use smart_proxy.Cache.Memory as Memory
use smart_proxy.Cache.Tiers.{TierConfig}
use smart_proxy.Cache.Ttl.{resolve_ttl}

abbrev pub cache_header : Text
cache_header = text "X-SP-Proxy-Cache"

abbrev seconds : ℕ → Text
seconds d = decimal (d / 1_000_000_000)

-- The entry is alive, so its remaining time is not below 0 by a second.
unfoldable pub serve_cached_response : CachedResponse → ℕ → Reply
serve_cached_response cached now =
    let age = now - cached.cached_at in
    let hit = set_header (copy_headers [] cached.headers) cache_header (text "HIT") in
    let aged = set_header hit (text "X-SP-Proxy-Cache-Age") (seconds age) in
    let left =
      set_header aged (text "X-SP-Proxy-Cache-TTL-Remaining") (seconds (cached.ttl - age)) in
    record {
      status_code = cached.status_code;
      headers =
          if cached.source_request_id == []
          then left
          else set_header left (text "X-SP-Proxy-Cache-Source-ID") cached.source_request_id;
      body = cached.body;
    }

-- what the client gets of a recorded answer
unfoldable pub miss_reply : Reply → Reply
miss_reply rec = record rec {
  headers = set_header (copy_headers [] rec.headers) cache_header (text "MISS");
}

abbrev pub is_success : ℕ → Bool
is_success code = leb 200 code && ltb code 300

module _ (out : Outside) where
  abbrev pub ttl_of : HttpRequest → TierConfig → CacheConfig → ℕ → ℕ
  ttl_of r tier cfg now =
      resolve_ttl out.parse_duration out.parse_time r.cache_until r.cache_ttl tier
        cfg.max_client_ttl now

  -- the next handler on the client's own writer
  unfoldable pub pass : MemoryCache → Headers → HttpRequest → Served
  pass mc headers r = record { cache = mc; forwarded = true; reply = out.next headers r }

  abbrev pub recorded : HttpRequest → TierConfig → CacheConfig → ℕ → CachedResponse
  recorded r tier cfg later = record {
    status_code = (out.next [] r).status_code;
    headers = (out.next [] r).headers;
    body = (out.next [] r).body;
    cached_at = later;
    ttl = ttl_of r tier cfg later;
    source_request_id = r.request_id;
  }

  unfoldable pub record_and_cache :
      MemoryCache → Text → HttpRequest → TierConfig → CacheConfig → ℕ → Served
  unfolding miss_reply
  record_and_cache mc key r tier cfg later =
      let rec = out.next [] r in
      record {
        cache =
            if is_success rec.status_code
            then Memory.set mc key (recorded r tier cfg later) (ttl_of r tier cfg later) later
            else mc;
        forwarded = true;
        reply = miss_reply rec;
      }

  -- the lookup that `CacheMiddleware` and `handlePostCache` make
  unfoldable pub serve_key :
      MemoryCache → Text → HttpRequest → TierConfig → CacheConfig → ℕ → ℕ → Served
  unfolding record_and_cache serve_cached_response
  serve_key mc key r tier cfg now later =
      let (mc', found) = Memory.get mc key now in
      elim found [
        | some cached ↦ record {
          cache = mc';
          forwarded = false;
          reply = serve_cached_response cached now;
        }
        | none ↦ record_and_cache mc' key r tier cfg later
      ]
