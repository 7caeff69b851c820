-- ===== src/Cache/Samples.antt =====
-- A request, bodies and what is outside internal/cache, for its tests.
use smart_proxy.Base.{text_eq, true, Option, none, some, [], ◌∷◌, if◌then◌else◌, text_beq}
use smart_proxy.Base.Text.{Text, text}
use smart_proxy.Base.Dict.{Dict, lookup}
use smart_proxy.Cache.Http.{HttpRequest, CacheConfig, Outside, JsonCodec, failed, object}

-- two bodies that differ in the caller's reference
abbrev pub first_body : Text
first_body = text "{'Identifier':'1','ids':[7]}"

abbrev pub second_body : Text
second_body = text "{'Identifier':'2','ids':[7]}"

abbrev pub first_fields : Dict Text Text
first_fields = (text "Identifier", text "'1'") ∷ (text "ids", text "[7]") ∷ []

abbrev pub second_fields : Dict Text Text
second_fields = (text "Identifier", text "'2'") ∷ (text "ids", text "[7]") ∷ []

abbrev pub offer_body : Text
offer_body = text "[{}]"

abbrev pub encode_ids : Option Text → Text
encode_ids none = text "{}"
encode_ids (some ids) = ids

-- a codec that knows these bodies, and a batch of one element
abbrev pub json : JsonCodec
json = record {
  decode_object = λ v.
      if text_beq v first_body
      then object first_fields
      else if text_beq v second_body
      then object second_fields
      else failed;
  decode_array = λ v. some (text "{}" ∷ []);
  decode_offers = λ v. none;
  decode_fees = λ v. none;
  decode_summary = λ v. none;
  decode_foep = λ v. some (record { marketplace_id = text "M"; sku = text "S" });
  decode_status_code = λ v. some 200;
  decode_status = λ v. some (text "Success");
  encode_object = λ d. encode_ids (lookup (text "ids") d);
  encode_array = λ l. some (text "[1]");
  encode_raw = λ v. some v;
}

-- every request is answered with an empty object
abbrev pub outside : Outside
outside = record {
  next = λ h r. record { status_code = 200; headers = []; body = text "{}" };
  sha256_hex = λ t. t;
  parse_duration = λ t. none;
  parse_time = λ t. none;
  parse_query = λ t. none;
  json = json;
}

abbrev pub config : CacheConfig
config = record {
  enabled = true;
  max_memory = 1_000;
  default_ttl = [];
  max_client_ttl = [];
  exclude_pii = true;
}

abbrev pub listing : HttpRequest
listing = record {
  method = text "GET";
  path = text "/listings/2021-08-01/items/1/S";
  raw_query = [];
  body = some [];
  merchant_key = text "m";
  request_id = text "r1";
  no_cache = [];
  cache_key = [];
  cache_until = [];
  cache_ttl = [];
}
