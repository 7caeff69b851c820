-- ===== src/Rdt/Sources/Routes.antt =====
-- internal/rdt/middleware.go: the sources of the tokens that the handler's routes send upstream.
use smart_proxy.Rdt.Reports.{ReportTracker, lookup_document_report_type, is_restricted_report_type}
use smart_proxy.Base.{
  ℕ, ◌≡◌, refl, subst, inl, inr, not, ◌&&◌, ◌||◌, none, some, [], ◌++◌, arith, ◌==◌, nat_eq,
  text_eq, Bool-cases, Option-cases, text_beq_iff,
}
use smart_proxy.Base.Text.{text, has_prefix, strip_query}
use mathlib.Core.Option.{some-injective}
use smart_proxy.Rdt.Matcher.{match_pii_operation}
use smart_proxy.Rdt.Middleware.{
  Request, Upstream, Middleware, handle_report_sniffing, handle_force_rdt, handle_document_download,
  handle_pii_operation, auto_rdt, pass, sniff_create_report, sniff_get_report, rdt_token_prefix,
  trim_prefix, Served, documents_base_path, reports_base_path,
}
use smart_proxy.Rdt.Sources.{
  Relayed, kept, serve_operation-Relayed, serve_concrete-Relayed, sniffed,
}

module _ (up : Upstream) (m : Middleware) (r : Request) (now : ℕ) where
  handle_pii_operation-Relayed : Relayed up m r now (handle_pii_operation up m r now)
  unfolding handle_pii_operation pass
  handle_pii_operation-Relayed = elim (Option-cases (match_pii_operation r.method r.path)) [
    | inl e ↦ rw (e, handle_pii_operation) (kept up m r now _ refl refl)
    | inr (op, e) ↦ elim (Bool-cases (has_prefix r.access_token rdt_token_prefix)) [
      | inl rdt ↦ rw (e, handle_pii_operation, rdt) (kept up m r now _ refl refl)
      | inr plain ↦
          rw (e, handle_pii_operation, plain) (serve_operation-Relayed up m r now op plain e)
    ]
  ]

  handle_document_download-Relayed :
      (rt : ReportTracker) → Relayed up m r now (handle_document_download up m rt r now)
  unfolding handle_document_download pass
  handle_document_download-Relayed rt =
      let doc_id = trim_prefix r.path documents_base_path in
      elim (Bool-cases (doc_id == [] || has_prefix r.access_token rdt_token_prefix)) [
        | inl skip ↦ rw (skip, handle_document_download) (kept up m r now _ refl refl)
        | inr look ↦ elim (Option-cases (lookup_document_report_type rt doc_id now)) [
          | inl e ↦ rw (look, handle_document_download, e) (kept up m r now _ refl refl)
          | inr (report_type, e) ↦ elim (Bool-cases (is_restricted_report_type report_type)) [
            | inl restricted ↦
                rw (look, handle_document_download, e, restricted)
                  (serve_concrete-Relayed up m r now m (text "GET") (documents_base_path ++ doc_id)
                    (ground arith))
            | inr free ↦ rw (look, handle_document_download, e, free) (kept up m r now _ refl refl)
          ]
        ]
      ]

  handle_report_sniffing-Relayed :
      (rt : ReportTracker) (served : Served)
      → handle_report_sniffing up m rt r now ≡ some served
      → Relayed up m r now served
  unfolding handle_report_sniffing sniff_create_report sniff_get_report
  handle_report_sniffing-Relayed rt served h =
      elim (Bool-cases (r.method == text "POST" && r.path == reports_base_path)) [
        | inl created ↦ sent_of _ (rw (created, handle_report_sniffing) at h) (
            sniffed up m r now _ (ground (arith, text_beq_iff r.method (text "POST")))
              (ground (arith, text_beq_iff r.path reports_base_path)) refl refl)
        | inr e ↦
            elim (Bool-cases (
              r.method == text "GET"
              && has_prefix r.path (reports_base_path ++ text "/")
              && not (has_prefix r.path documents_base_path))) [
                | inl got ↦
                    sent_of _ (rw (e, handle_report_sniffing, got) at h)
                      (kept up m r now _ refl refl)
                | inr f ↦
                    elim (Bool-cases
                      (r.method == text "GET" && has_prefix r.path documents_base_path)) [
                        | inl downloaded ↦
                            sent_of _ (rw (e, handle_report_sniffing, f, downloaded) at h)
                              (handle_document_download-Relayed rt)
                        | inr g ↦ none_of (rw (e, handle_report_sniffing, f, g) at h)
                      ]
              ]
      ]
    where
      sent_of :
          (found : Served)
          → some found ≡ some served
          → Relayed up m r now found
          → Relayed up m r now served
      sent_of found e s =
          subst (λ (v : Served). Relayed up m r now v) (some-injective found served e) s

      none_of : none ≡ some served → Relayed up m r now served
      none_of e = cc

  pub auto_rdt-Relayed : Relayed up m r now (auto_rdt up m r now)
  unfolding auto_rdt
  auto_rdt-Relayed = elim (Option-cases m.reports) [
    | inl e ↦ simp (e, auto_rdt) handle_pii_operation-Relayed
    | inr (rt, e) ↦ elim (Option-cases (handle_report_sniffing up m rt r now)) [
      | inl free ↦ simp (e, auto_rdt, free) handle_pii_operation-Relayed
      | inr (served, taken) ↦
          simp (e, auto_rdt, taken) (handle_report_sniffing-Relayed rt served taken)
    ]
  ]

  pub handle_force_rdt-Relayed : Relayed up m r now (handle_force_rdt up m r)
  unfolding handle_force_rdt pass
  handle_force_rdt-Relayed = elim (Bool-cases (has_prefix r.access_token rdt_token_prefix)) [
    | inl rdt ↦ rw (rdt, handle_force_rdt) (kept up m r now _ refl refl)
    | inr plain ↦
        rw (plain, handle_force_rdt)
          (serve_concrete-Relayed up m r now m r.method (strip_query r.path) plain)
  ]
