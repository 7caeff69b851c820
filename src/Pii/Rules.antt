-- ===== src/Pii/Rules.antt =====
-- internal/pii/registry.go: redaction rules.
use smart_proxy.Base.Text.{Text}
pub mod Response
pub mod Conditional
pub mod RequestBody

pub data RedactionMode : Type 0 where
  redact_mode_redact : RedactionMode
  redact_mode_hash : RedactionMode
  redact_mode_omit : RedactionMode

pub record FieldRedaction : Type 0 where
  pub json_path : Text
  pub mode : RedactionMode

abbrev pub redact : Text → FieldRedaction
redact json_path = record { json_path = json_path; mode = redact_mode_redact }

abbrev pub omit : Text → FieldRedaction
omit json_path = record { json_path = json_path; mode = redact_mode_omit }
