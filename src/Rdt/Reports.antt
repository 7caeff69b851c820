-- ===== src/Rdt/Reports.antt =====
-- internal/rdt/reports.go: which report a document belongs to, learned from the traffic.
use smart_proxy.Base.{
  ℕ, ◌+◌, ◌≤◌, ◌<◌, ◌≡◌, ◌⊎◌, Bool, false, ◌||◌, Option, none, some, List, [], ◌∷◌, arith, ltb,
  if◌then◌else◌, ◌==◌, nat_eq, text_eq, text_beq_iff,
}
use smart_proxy.Base.Text.{Text, text}
use smart_proxy.Base.Dict.{Dict, lookup, insert, lookup-insert}

abbrev pub restricted_report_types : List Text
restricted_report_types =
    text "GET_FLAT_FILE_ORDER_REPORT_DATA_SHIPPING"
    ∷ text "GET_FLAT_FILE_ORDER_REPORT_DATA_INVOICING"
    ∷ text "GET_FLAT_FILE_ORDER_REPORT_DATA_TAX"
    ∷ text "GET_ORDER_REPORT_DATA_SHIPPING"
    ∷ text "GET_ORDER_REPORT_DATA_INVOICING"
    ∷ text "GET_ORDER_REPORT_DATA_TAX"
    ∷ text "GET_FLAT_FILE_ACTIONABLE_ORDER_DATA_SHIPPING"
    ∷ text "GET_FLAT_FILE_ACTIONABLE_ORDER_DATA_INVOICING"
    ∷ text "GET_FLAT_FILE_ACTIONABLE_ORDER_DATA_TAX"
    ∷ text "GET_CONVERGED_FLAT_FILE_ORDER_REPORT_DATA"
    ∷ text "GET_AMAZON_FULFILLED_SHIPMENTS_DATA_INVOICING"
    ∷ text "GET_AMAZON_FULFILLED_SHIPMENTS_DATA_TAX"
    ∷ text "GET_EASYSHIP_DOCUMENTS"
    ∷ text "GET_GST_MTR_B2B_CUSTOM"
    ∷ text "GET_VAT_TRANSACTION_DATA"
    ∷ text "SC_VAT_TAX_REPORT"
    ∷ []

unfoldable pub one_of : Text → List Text → Bool
one_of s [] = false
one_of s (t ∷ ts) = t == s || one_of s ts

unfoldable pub is_restricted_report_type : Text → Bool
unfolding one_of
is_restricted_report_type report_type = one_of report_type restricted_report_types

pub record ReportEntry : Type 0 where
  pub report_type : Text
  pub expires_at : ℕ

pub record DocumentEntry : Type 0 where
  pub report_type : Text
  pub expires_at : ℕ

pub record ReportTracker : Type 0 where
  pub reports : Dict Text ReportEntry
  pub documents : Dict Text DocumentEntry
  pub ttl : ℕ

unfoldable pub new_report_tracker : ℕ → ReportTracker
new_report_tracker ttl = record { reports = []; documents = []; ttl = ttl }

unfoldable pub track_report_creation : ReportTracker → Text → Text → ℕ → ReportTracker
track_report_creation rt report_id report_type now = record rt {
  reports =
      insert report_id (record { report_type = report_type; expires_at = now + rt.ttl }) rt.reports;
}

unfoldable pub track_report_document : ReportTracker → Text → Text → ℕ → ReportTracker
track_report_document rt report_id document_id now = elim (lookup report_id rt.reports) [
  | none ↦ rt
  | some entry ↦ if ltb entry.expires_at now then rt else record rt {
    documents =
        insert document_id (record { report_type = entry.report_type; expires_at = now + rt.ttl })
          rt.documents;
  }
]

-- `none` for the code's ("", false)
unfoldable pub lookup_document_report_type : ReportTracker → Text → ℕ → Option Text
lookup_document_report_type rt document_id now = elim (lookup document_id rt.documents) [
  | none ↦ none
  | some entry ↦ if ltb entry.expires_at now then none else some entry.report_type
]

-- The three steps of the report flow: a document tracked through its report, within the report's
-- time to live, has the type of the report until its own time is up, and is unknown afterwards.
pub report_flow :
    (rt : ReportTracker) (report_id report_type document_id : Text) (t u v : ℕ)
    → u ≤ t + rt.ttl
    → lookup_document_report_type
        (track_report_document
          (track_report_creation rt report_id report_type t)
          report_id
          document_id
          u)
        document_id
        v
      ≡ (if ltb (u + rt.ttl) v then none else some report_type)
unfolding lookup_document_report_type track_report_document track_report_creation
report_flow rt report_id report_type document_id t u v h =
    let entry : ReportEntry = record { report_type = report_type; expires_at = t + rt.ttl } in
    let doc : DocumentEntry = record { report_type = report_type; expires_at = u + rt.ttl } in
    ground (
      arith,
      lookup-insert report_id report_id entry rt.reports,
      text_beq_iff report_id report_id,
      lookup-insert document_id document_id doc rt.documents,
      text_beq_iff document_id document_id,
    )

-- A report that was never seen, or whose time is up, adds no document.
pub track_report_document_unknown :
    (rt : ReportTracker) (report_id document_id : Text) (now : ℕ) (old : ReportEntry)
    → (lookup report_id rt.reports ≡ none)
      ⊎ ((lookup report_id rt.reports ≡ some old) × (old.expires_at < now))
    → track_report_document rt report_id document_id now ≡ rt
unfolding track_report_document
track_report_document_unknown rt report_id document_id now old h = ground arith
