-- ===== src/Rdt/Middleware.antt =====
-- internal/rdt/middleware.go: the handler that swaps a client's token for a restricted data token.
-- What lies outside it is a parameter: the next handler, the token API behind the minter (`none` is
-- any failure), and the decoding of the three JSON fields that it sniffs (the empty text is a missing
-- field or a body that does not parse). The headers it reads are fields of the request, an absent one
-- the empty text; of a body it has what can be read, and whether an error follows instead of its end.
-- All readings of the clock during one request are one. Concurrent calls with equal
-- singleflight keys, which share one run of the minting function, are not modelled.
use smart_proxy.Rdt.Reports.{
  ReportTracker, lookup_document_report_type, track_report_document, track_report_creation,
  is_restricted_report_type,
}
use smart_proxy.Base.{
  ℕ, Bool, not, ◌&&◌, ◌||◌, Option, none, some, [], ◌∷◌, ◌++◌, ltb, if◌then◌else◌, ◌==◌, nat_eq,
  text_eq, length, nat_beq, drop, false,
}
use smart_proxy.Base.Text.{Text, text, has_prefix, strip_query}
use smart_proxy.Rdt.TokenCache.{
  Cache, CacheKey, CacheEntry, invalidate, PiiOperation, build_cache_key,
}
use smart_proxy.Rdt.TokenCache as TokenCache
use smart_proxy.Rdt.Matcher.{RestrictedResource, match_pii_operation, to_restricted_resource}

pub record Request : Type 0 where
  pub method : Text
  pub path : Text
  pub merchant_key : Text
  pub access_token : Text
  pub force_rdt : Text
  pub body : Text
  pub body_fails : Bool

-- `status` is 0 where the handler wrote no header
pub record Response : Type 0 where
  pub status : ℕ
  pub body : Text

pub record Upstream : Type 0 where
  pub next : Request → Response
  pub mint : Text → RestrictedResource → Option CacheEntry
  pub report_type_of : Text → Text
  pub report_id_of : Text → Text
  pub document_id_of : Text → Text

pub record Middleware : Type 0 where
  pub enabled : Bool
  pub cache : Cache
  pub reports : Option ReportTracker

-- The middleware after a request, the request that went to the next handler, and its response.
pub record Served : Type 0 where
  pub state : Middleware
  pub sent : Request
  pub response : Response

abbrev pub rdt_token_prefix : Text
rdt_token_prefix = text "Atz.sprdt|"

abbrev pub reports_base_path : Text
reports_base_path = text "/reports/2021-06-30/reports"

abbrev pub documents_base_path : Text
documents_base_path = text "/reports/2021-06-30/documents/"

-- the text before the first occurrence of a byte, or all of it
unfoldable pub before_byte : ℕ → Text → Text
before_byte c [] = []
before_byte c (d ∷ s) = if nat_beq d c then [] else d ∷ before_byte c s

-- what follows a prefix (strings.TrimPrefix)
unfoldable pub trim_prefix : Text → Text → Text
trim_prefix s p = if has_prefix s p then drop (length p) s else s

-- bodyRecorder.statusCode
abbrev pub status_code : Response → ℕ
status_code resp = if resp.status == 0 then 200 else resp.status

abbrev pub with_token : Request → Text → Request
with_token r token = record r { access_token = token }

-- the request with the bytes that could be read put back as its body, which ends after them
abbrev pub restored : Request → Request
restored r = record r { body_fails = false }

-- the request once the override header is deleted
abbrev pub stripped : Request → Request
stripped r = record r { force_rdt = [] }

module _ (up : Upstream) where
  unfoldable pub pass : Middleware → Request → Served
  pass m r = record { state = m; sent = r; response = up.next r }

  unfoldable pub serve_with_rdt : Middleware → Request → Text → CacheKey → Served
  serve_with_rdt m r rdt_token key =
      let sent = with_token r rdt_token in
      let resp = up.next sent in
      record {
        state =
            if resp.status == 403 || resp.status == 401
            then record m { cache = invalidate m.cache key }
            else m;
        sent = sent;
        response = resp;
      }

  -- the function that `mintWithSingleflight` hands to the group
  unfoldable pub mint_fresh :
      Middleware → Text → PiiOperation → CacheKey → Middleware × Option CacheEntry
  mint_fresh m token op key = elim (up.mint token (to_restricted_resource op)) [
    | none ↦ (m, none)
    | some entry ↦ (
      if op.cacheable then record m { cache = TokenCache.set m.cache key entry } else m,
      some entry,
    )
  ]

  unfoldable pub mint_with_singleflight :
      Middleware → Text → PiiOperation → CacheKey → ℕ → Middleware × Option CacheEntry
  unfolding mint_fresh
  mint_with_singleflight m token op key now =
      if op.cacheable
      then (let (cache', found) = TokenCache.get m.cache key now in
          elim found [
            | some entry ↦ (record m { cache = cache' }, some entry)
            | none ↦ mint_fresh (record m { cache = cache' }) token op key
          ])
      else mint_fresh m token op key

  -- minting, and the fallback to the client's own token
  unfoldable pub serve_minted : Middleware → Request → PiiOperation → CacheKey → ℕ → Served
  unfolding pass serve_with_rdt mint_with_singleflight
  serve_minted m r op key now =
      let (m', minted) = mint_with_singleflight m r.access_token op key now in
      elim minted [ none ↦ pass m' r | some entry ↦ serve_with_rdt m' r entry.token key ]

  unfoldable pub serve_operation : Middleware → Request → PiiOperation → ℕ → Served
  unfolding serve_minted
  serve_operation m r op now =
      let key = build_cache_key r.merchant_key op in
      if op.cacheable
      then (let (cache', found) = TokenCache.get m.cache key now in
          elim found [
            | some entry ↦ serve_with_rdt (record m { cache = cache' }) r entry.token key
            | none ↦ serve_minted (record m { cache = cache' }) r op key now
          ])
      else serve_minted m r op key now

  unfoldable pub handle_pii_operation : Middleware → Request → ℕ → Served
  unfolding serve_operation
  handle_pii_operation m r now = elim (match_pii_operation r.method r.path) [
    | none ↦ pass m r
    | some op ↦
        if has_prefix r.access_token rdt_token_prefix then pass m r else serve_operation m r op now
  ]

  -- a token minted for one concrete path, or the client's own
  unfoldable pub serve_concrete : Middleware → Request → Text → Text → Served
  unfolding pass
  serve_concrete m r method path =
      elim (up.mint r.access_token (record { method = method; path = path; data_elements = [] })) [
        | none ↦ pass m r
        | some entry ↦ pass m (with_token r entry.token)
      ]

  unfoldable pub handle_force_rdt : Middleware → Request → Served
  unfolding serve_concrete
  handle_force_rdt m r =
      if has_prefix r.access_token rdt_token_prefix
      then pass m r
      else serve_concrete m r r.method (strip_query r.path)

  unfoldable pub sniff_create_report : Middleware → ReportTracker → Request → ℕ → Served
  sniff_create_report m rt r now =
      let report_type = if r.body_fails then [] else up.report_type_of r.body in
      let resp = up.next (restored r) in
      let report_id = up.report_id_of resp.body in
      record {
        state =
            if not (report_type == []) && ltb (status_code resp) 400 && not (report_id == [])
            then record m { reports = some (track_report_creation rt report_id report_type now) }
            else m;
        sent = restored r;
        response = resp;
      }

  unfoldable pub sniff_get_report : Middleware → ReportTracker → Request → ℕ → Served
  sniff_get_report m rt r now =
      let report_id = before_byte b'/' (trim_prefix r.path (reports_base_path ++ text "/")) in
      let resp = up.next r in
      let document_id = up.document_id_of resp.body in
      record {
        state =
            if ltb (status_code resp) 400 && not (document_id == [])
            then record m { reports = some (track_report_document rt report_id document_id now) }
            else m;
        sent = r;
        response = resp;
      }

  unfoldable pub handle_document_download : Middleware → ReportTracker → Request → ℕ → Served
  unfolding pass serve_concrete
  handle_document_download m rt r now =
      let doc_id = trim_prefix r.path documents_base_path in
      if doc_id == [] || has_prefix r.access_token rdt_token_prefix
      then pass m r
      else elim (lookup_document_report_type rt doc_id now) [
        | none ↦ pass m r
        | some report_type ↦
            if is_restricted_report_type report_type
            then serve_concrete m r (text "GET") (documents_base_path ++ doc_id)
            else pass m r
      ]

  -- `none` where the code returns false, and the request goes on to the table of operations
  unfoldable pub handle_report_sniffing : Middleware → ReportTracker → Request → ℕ → Option Served
  unfolding sniff_create_report sniff_get_report handle_document_download
  handle_report_sniffing m rt r now =
      if r.method == text "POST" && r.path == reports_base_path
      then some (sniff_create_report m rt r now)
      else if r.method == text "GET"
          && has_prefix r.path (reports_base_path ++ text "/")
          && not (has_prefix r.path documents_base_path)
      then some (sniff_get_report m rt r now)
      else if r.method == text "GET" && has_prefix r.path documents_base_path
      then some (handle_document_download m rt r now)
      else none

  unfoldable pub auto_rdt : Middleware → Request → ℕ → Served
  unfolding handle_report_sniffing handle_pii_operation
  auto_rdt m r now = elim m.reports [
    | none ↦ handle_pii_operation m r now
    | some rt ↦ elim (handle_report_sniffing m rt r now) [
      | some served ↦ served
      | none ↦ handle_pii_operation m r now
    ]
  ]

  unfoldable pub handle : Middleware → Request → ℕ → Served
  unfolding pass handle_force_rdt auto_rdt
  handle m r now =
      if m.enabled
      then (if r.force_rdt == text "false"
          then pass m (stripped r)
          else if r.force_rdt == text "true"
          then handle_force_rdt m (stripped r)
          else auto_rdt m (stripped r) now)
      else pass m r
