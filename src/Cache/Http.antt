-- ===== src/Cache/Http.antt =====
-- What the handlers of internal/cache read and write. A request's headers that they read are fields,
-- an absent one the empty text, and so are the merchant and the request id of its context. `body` is
-- `none` where reading it fails. A reply has the headers of the writer when the status is written.
-- `Outside` is what lies outside internal/cache: the next handler, which gets the headers that are
-- already set on the writer (a recorder has none, and answers 200 where no status is written), SHA-256
-- in hexadecimal, and the parsers of time, net/url and encoding/json that the code calls.
use smart_proxy.Base.{
  ℕ, zero, suc, ◌+◌, ◌/◌, ◌%◌, Bool, Option, none, some, List, [], ◌∷◌, ◌++◌, if◌then◌else◌, ◌==◌,
  nat_eq, text_eq,
}
use smart_proxy.Base.Text.{Text}
use smart_proxy.Base.Dict.{Dict, lookup, insert}
use smart_proxy.Cache.Memory.{MemoryCache}

abbrev pub Headers : Type 0
Headers = Dict Text (List Text)

pub record HttpRequest : Type 0 where
  pub method : Text
  pub path : Text
  pub raw_query : Text
  pub body : Option Text
  pub merchant_key : Text
  pub request_id : Text
  pub no_cache : Text
  pub cache_key : Text
  pub cache_until : Text
  pub cache_ttl : Text

pub record Reply : Type 0 where
  pub status_code : ℕ
  pub headers : Headers
  pub body : Text

pub record CacheConfig : Type 0 where
  pub enabled : Bool
  pub max_memory : ℕ
  pub default_ttl : Text
  pub max_client_ttl : Text
  pub exclude_pii : Bool

-- json.Unmarshal into a map[string]json.RawMessage, which `null` leaves nil
pub data Decoded : Type 0 where
  failed : Decoded
  nil_map : Decoded
  object : Dict Text Text → Decoded

-- The JSON that the code decodes, by the type that it decodes into (`none` is an error; a missing
-- field is empty). Amounts are as `%.2f` prints them.
pub record OffersRequest : Type 0 where
  pub uri : Text
  pub marketplace_id : Text
  pub item_condition : Text
  pub customer_type : Text

pub record FeesRequest : Type 0 where
  pub id_type : Text
  pub id_value : Text
  pub marketplace_id : Text
  pub is_amazon_fulfilled : Option Bool
  pub listing_price : Text
  pub currency_code : Text
  pub shipping : Option Text
  pub fulfillment_program : Text

pub record SummaryRequest : Type 0 where
  pub asin : Text
  pub marketplace_id : Text
  pub included_data : List Text

pub record FoepRequest : Type 0 where
  pub marketplace_id : Text
  pub sku : Text

pub record JsonCodec : Type 0 where
  pub decode_object : Text → Decoded
  pub decode_array : Text → Option (List Text)
  pub decode_offers : Text → Option OffersRequest
  pub decode_fees : Text → Option FeesRequest
  pub decode_summary : Text → Option SummaryRequest
  pub decode_foep : Text → Option FoepRequest
  pub decode_status_code : Text → Option ℕ
  pub decode_status : Text → Option Text
  pub encode_object : Dict Text Text → Text
  pub encode_array : List Text → Option Text
  pub encode_raw : Text → Option Text

pub record Outside : Type 0 where
  pub next : Headers → HttpRequest → Reply
  pub sha256_hex : Text → Text
  pub parse_duration : Text → Option ℕ
  pub parse_time : Text → Option ℕ
  pub parse_query : Text → Option Headers
  pub json : JsonCodec

-- The cache after a request, whether the request went to the next handler, and what the client gets.
pub record Served : Type 0 where
  pub cache : MemoryCache
  pub forwarded : Bool
  pub reply : Reply

unfoldable pub set_header : Headers → Text → Text → Headers
set_header h k v = insert k (v ∷ []) h

add_header : Headers → Text → Text → Headers
add_header h k v = elim (lookup k h) [
  | none ↦ insert k (v ∷ []) h
  | some vals ↦ insert k (vals ++ v ∷ []) h
]

add_values : Headers → Text → List Text → Headers
unfolding add_header
add_values h k [] = h
add_values h k (v ∷ vals) = add_values (add_header h k v) k vals

-- the loops over the headers of a recorded or a cached response
unfoldable pub copy_headers : Headers → Headers → Headers
unfolding add_values
copy_headers h [] = h
copy_headers h ((k, vals) ∷ more) = copy_headers (add_values h k vals) more

digits : ℕ → ℕ → Text → Text
digits zero n acc = acc
digits (suc fuel) n acc =
    let more = digits fuel (n / 10) ((b'0' + n % 10) ∷ acc) in
    if n / 10 == 0 then (b'0' + n % 10) ∷ acc else more

-- fmt.Sprintf("%d", n); a number has at most as many digits as its value says, plus one
unfoldable pub decimal : ℕ → Text
unfolding digits
decimal n = digits (suc n) n []
