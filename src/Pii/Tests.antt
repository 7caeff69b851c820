-- ===== src/Pii/Tests.antt =====
-- Runs of internal/pii, and the theorems at concrete inputs.
use smart_proxy.Base.{
  ◌≡◌, refl, true, none, some, List, [], ◌∷◌, ◌++◌, if◌then◌else◌, ◌==◌, nat_eq, text_eq, text_beq,
  All, any, every,
}
use smart_proxy.Base.Text.{
  Text, text, has_prefix, has_suffix, index, index_byte, split, join, to_lower, lower_byte,
}
use smart_proxy.Base.Dict.{Dict}
use smart_proxy.Base.Clean.{lacks}
use smart_proxy.Pii.Rules.{FieldRedaction, redact}
use smart_proxy.Pii.Registry.{
  HttpRequest, new_registry, request_body_contains_pii, classify_messaging_post, listed_action,
  rules_for, member,
}
use smart_proxy.Pii.Registry.Messaging.{messages_contain_pii}
use smart_proxy.Pii.Query.{redact_query_string, is_pii_param}
use smart_proxy.Pii.Query.Laws.{redact_query_string_hides}
use smart_proxy.Pii.Json.{
  Json, string, array, object, no_member, member as field, no_elem, elem, get_member, set_member,
  walk_segments, parse_path, apply_last, walk_child, walk_array_segment, walk_selected, walk_elems,
  selection, strip_root, part_segments, all_segments, walk_and_apply,
}
use smart_proxy.Pii.Json.Walk.{AllAt}
use smart_proxy.Pii.Engine.{Codec, apply_rules, redact_for_logging, redact_member}
use smart_proxy.Pii.Engine.Soundness.{IsMarker, apply_rules_redact}
use smart_proxy.Pii.Engine.Logging.{redact_for_logging-Logged, Logged, configured}

abbrev packing_slip : HttpRequest
packing_slip = record {
  method = text "GET";
  path = text "/vendor/directFulfillment/shipping/2021-12-28/packingSlips/7";
  query = [];
}

abbrev unknown_path : HttpRequest
unknown_path = record { method = text "GET"; path = text "/no/such"; query = [] }

abbrev message : HttpRequest
message = record {
  method = text "POST";
  path = text "/messaging/v1/orders/9-1/messages/createWarranty";
  query = [];
}

abbrev warranty : Text
warranty = text "/messaging/v1/orders/{orderId}/messages/createWarranty"

message_classified : classify_messaging_post message ≡ some warranty
unfolding classify_messaging_post listed_action has_prefix index lacks every member any text_beq
message_classified = refl

messages_contain_pii_example : request_body_contains_pii new_registry message ≡ true
messages_contain_pii_example = messages_contain_pii message warranty message_classified

-- With a slash at its end the same path is no message, and its text would be logged.
trailing_slash :
    classify_messaging_post
      (record message { path = text "/messaging/v1/orders/9-1/messages/createWarranty/" })
    ≡ none
unfolding classify_messaging_post listed_action has_prefix index lacks every member any text_beq
trailing_slash = refl

abbrev headers : Dict Text (List Text)
headers = (text "Authorization", text "Bearer s" ∷ []) ∷ (text "Accept", text "*/*" ∷ []) ∷ []

redact_query_string_hides_example :
    redact_query_string
      (join ((text "a=1" ∷ []) ++ (text "BuyerName" ++ b'=' ∷ text "jo") ∷ []) (text "&"))
      []
    ≡ redact_query_string
        (join ((text "a=1" ∷ []) ++ (text "BuyerName" ++ b'=' ∷ text "ann") ∷ []) (text "&"))
        []
redact_query_string_hides_example =
    redact_query_string_hides [] (text "a=1" ∷ []) [] (text "BuyerName") (text "jo") (text "ann")
      (unfold lacks every in refl)
      (unfold is_pii_param member any text_beq to_lower lower_byte in refl)
      (unfold lacks every in refl) (unfold lacks every in refl)

abbrev document : Json
document = object (
    field (text "payload")
      (array (elem (object (field (text "Name") (string (text "jo")) no_member)) no_elem))
      no_member)

abbrev codec : Codec
codec = record {
  unmarshal = λ body. if body == [] then none else some document;
  marshal = λ doc. some (text "{}");
  full_body = λ endpoint. text "{}";
  sha256_hex = λ v. text "00";
}

abbrev name_rules : List FieldRedaction
name_rules = redact (text "$.payload[*].Name") ∷ redact (text "$.payload[0].Phone") ∷ []

apply_rules_redact_example :
    All
      (λ (rule : FieldRedaction).
        AllAt IsMarker (apply_rules codec name_rules document).0 (parse_path rule.json_path))
      name_rules
apply_rules_redact_example = apply_rules_redact codec name_rules document (refl, (refl, tt))

-- The name is replaced.
name_redacted : (apply_rules codec name_rules document) ≡ (
  object (
      field
        (text "payload")
        (array (elem (object (field (text "Name") (string (text "[REDACTED]")) no_member)) no_elem))
        no_member),
  true,
)
unfolding apply_rules redact_member walk_and_apply walk_segments walk_child walk_array_segment
    walk_selected walk_elems selection apply_last get_member set_member has_prefix has_suffix
    text_beq parse_path strip_root part_segments all_segments split index_byte
name_redacted = refl

redact_for_logging-Logged_example :
    Logged codec
      (rules_for (configured [] true) (text "/orders/v0/orders"))
      (text "{}")
      (redact_for_logging codec (configured [] true) (text "/orders/v0/orders") (text "{}"))
redact_for_logging-Logged_example =
    redact_for_logging-Logged codec [] true (text "/orders/v0/orders") (text "{}")
