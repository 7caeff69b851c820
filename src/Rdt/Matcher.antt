-- ===== src/Rdt/Matcher.antt =====
-- internal/rdt/matcher.go: the table of operations that need a restricted data token, and its search.
use smart_proxy.Base.{
  ℕ, ◌+◌, ◌≡◌, refl, ap, ◌∙◌, inl, inr, Bool, true, not, ◌&&◌, ◌||◌, Option, none, some, List, [],
  ◌∷◌, ◌++◌, arith, if◌then◌else◌, ◌==◌, nat_eq, text_eq, text_beq, text_beq_iff, Bool-cases,
  every_mem, every,
}
use mathlib.Core.List.{Memᴰ}
use smart_proxy.Base.Text.{
  Text, text, has_prefix, has_suffix, clean_path-query, clean_path, count_byte,
}
use smart_proxy.Rdt.TokenCache.{PiiOperation}

pub record RestrictedResource : Type 0 where
  pub method : Text
  pub path : Text
  pub data_elements : List Text

unfoldable pub to_restricted_resource : PiiOperation → RestrictedResource
to_restricted_resource op = record {
  method = op.method;
  path = op.generic_path;
  data_elements = op.data_elements;
}

abbrev pub orders_v0_data_elements : List Text
orders_v0_data_elements =
    text "buyerInfo" ∷ text "shippingAddress" ∷ text "buyerTaxInformation" ∷ []

pub record PiiRule : Type 0 where
  pub prefix : Text
  pub segments : ℕ
  pub suffix : Text
  pub method : Text
  pub generic_path : Text
  pub data_elems : List Text
  pub cacheable : Bool

abbrev pub rule : Text → ℕ → Text → Text → Text → List Text → Bool → PiiRule
rule prefix segments suffix method generic_path data_elems cacheable = record {
  prefix = prefix;
  segments = segments;
  suffix = suffix;
  method = method;
  generic_path = generic_path;
  data_elems = data_elems;
  cacheable = cacheable;
}

abbrev pub pii_rules : List PiiRule
pii_rules =
    rule (text "/orders/v0/orders/") 7 (text "orderItems/buyerInfo") (text "GET")
      (text "/orders/v0/orders/{orderId}/orderItems/buyerInfo") [] true
    ∷ rule (text "/orders/v0/orders/") 6 (text "orderItems") (text "GET")
        (text "/orders/v0/orders/{orderId}/orderItems") orders_v0_data_elements true
    ∷ rule (text "/orders/v0/orders/") 6 (text "address") (text "GET")
        (text "/orders/v0/orders/{orderId}/address") [] true
    ∷ rule (text "/orders/v0/orders/") 6 (text "buyerInfo") (text "GET")
        (text "/orders/v0/orders/{orderId}/buyerInfo") [] true
    ∷ rule (text "/orders/v0/orders/") 6 (text "regulatedInfo") (text "GET")
        (text "/orders/v0/orders/{orderId}/regulatedInfo") [] true
    ∷ rule (text "/orders/v0/orders/") 5 ([]) (text "GET") (text "/orders/v0/orders/{orderId}")
        orders_v0_data_elements true
    ∷ rule (text "/orders/v0/orders") 4 ([]) (text "GET") (text "/orders/v0/orders")
        orders_v0_data_elements true
    ∷ rule (text "/mfn/v0/shipments/") 6 (text "cancel") (text "PUT")
        (text "/mfn/v0/shipments/{shipmentId}/cancel") [] true
    ∷ rule (text "/mfn/v0/shipments/") 5 ([]) (text "GET") (text "/mfn/v0/shipments/{shipmentId}")
        [] true
    ∷ rule (text "/mfn/v0/shipments") 4 ([]) (text "POST") (text "/mfn/v0/shipments") [] true
    ∷ rule (text "/shipping/v1/shipments/") 5 ([]) (text "GET")
        (text "/shipping/v1/shipments/{shipmentId}") [] true
    ∷ rule (text "/fba/outbound/brazil/v0/shipments/") 7 ([]) (text "GET")
        (text "/fba/outbound/brazil/v0/shipments/{shipmentId}") [] true
    ∷ rule (text "/easyShip/2022-03-23/packages/bulk") 5 ([]) (text "POST")
        (text "/easyShip/2022-03-23/packages/bulk") [] true
    ∷ rule (text "/vendor/directFulfillment/orders/2021-12-28/purchaseOrders/") 7 ([]) (text "GET")
        (text "/vendor/directFulfillment/orders/2021-12-28/purchaseOrders/{purchaseOrderNumber}") []
        true
    ∷ rule (text "/vendor/directFulfillment/orders/2021-12-28/purchaseOrders") 6 ([]) (text "GET")
        (text "/vendor/directFulfillment/orders/2021-12-28/purchaseOrders") [] true
    ∷ rule (text "/vendor/directFulfillment/shipping/2021-12-28/shippingLabels/") 7 ([])
        (text "GET")
        (text "/vendor/directFulfillment/shipping/2021-12-28/shippingLabels/{purchaseOrderNumber}")
        [] true
    ∷ rule (text "/vendor/directFulfillment/shipping/2021-12-28/shippingLabels") 6 ([]) (text "GET")
        (text "/vendor/directFulfillment/shipping/2021-12-28/shippingLabels") [] true
    ∷ rule (text "/vendor/directFulfillment/shipping/2021-12-28/packingSlips/") 7 ([]) (text "GET")
        (text "/vendor/directFulfillment/shipping/2021-12-28/packingSlips/{purchaseOrderNumber}") []
        true
    ∷ rule (text "/vendor/directFulfillment/shipping/2021-12-28/packingSlips") 6 ([]) (text "GET")
        (text "/vendor/directFulfillment/shipping/2021-12-28/packingSlips") [] true
    ∷ rule (text "/vendor/directFulfillment/shipping/2021-12-28/customerInvoices/") 7 ([])
        (text "GET")
        (text
          "/vendor/directFulfillment/shipping/2021-12-28/customerInvoices/{purchaseOrderNumber}")
        [] true
    ∷ rule (text "/vendor/directFulfillment/shipping/2021-12-28/customerInvoices") 6 ([])
        (text "GET") (text "/vendor/directFulfillment/shipping/2021-12-28/customerInvoices") [] true
    ∷ []

-- the tests of the loop's body, in their order
unfoldable pub applies : PiiRule → Text → Text → ℕ → Bool
applies r method path segment_count =
    (r.method == text "*" || r.method == method)
    && (has_prefix path r.prefix || path == r.prefix)
    && segment_count == r.segments
    && (r.suffix == [] || has_suffix path (text "/" ++ r.suffix))

abbrev pub operation : PiiRule → PiiOperation
operation r = record {
  generic_path = r.generic_path;
  method = r.method;
  data_elements = r.data_elems;
  cacheable = r.cacheable;
}

unfoldable pub first_match : List PiiRule → Text → Text → ℕ → Option PiiOperation
unfolding applies
first_match [] method path segment_count = none
first_match (r ∷ rs) method path segment_count =
    if applies r method path segment_count
    then some (operation r)
    else first_match rs method path segment_count

unfoldable pub match_pii_operation : Text → Text → Option PiiOperation
unfolding first_match clean_path count_byte
match_pii_operation method path =
    first_match pii_rules method (clean_path path) (count_byte (clean_path path) b'/' + 1)

-- The operation is that of a rule of the table whose tests hold of the cleaned path.
pub record IsMatched (method path : Text) (op : PiiOperation) : Type 0 where
  pub matched : PiiRule
  pub listed : Memᴰ matched pii_rules
  pub holds :
      applies matched method (clean_path path) (count_byte (clean_path path) b'/' + 1) ≡ true
  pub described : op ≡ operation matched

first_match_sound :
    (rs : List PiiRule) (method path : Text) (n : ℕ) (op : PiiOperation)
    → first_match rs method path n ≡ some op
    → (r : PiiRule) × Memᴰ r rs × (applies r method path n ≡ true) × (op ≡ operation r)
unfolding first_match
first_match_sound [] method path n op h = cc
first_match_sound (r ∷ rs) method path n op h = elim (Bool-cases (applies r method path n)) [
  | inl found ↦ (r, Memᴰ.head refl, found, ground arith)
  | inr passed ↦
      let (q, listed, holds, same) = first_match_sound rs method path n op (ground arith) in
      (q, Memᴰ.tail listed, holds, same)
]

-- No rule of the table is for every method.
abbrev specific : PiiRule → Bool
specific r = not (r.method == text "*")

all_specific : every specific pii_rules ≡ true
unfolding every text_beq
all_specific = refl

applies_method :
    (r : PiiRule) (method path : Text) (n : ℕ)
    → specific r ≡ true
    → applies r method path n ≡ true
    → r.method ≡ method
unfolding applies
applies_method r method path n s h = ground (arith, text_beq_iff r.method method)

-- A match is sound: its rule is listed and its tests hold, the operation is the rule's, and its
-- method is the method of the request.
match_pii_operation_sound :
    (method path : Text) (op : PiiOperation)
    → match_pii_operation method path ≡ some op
    → IsMatched method path op × (op.method ≡ method)
unfolding match_pii_operation
match_pii_operation_sound method path op h =
    let n = count_byte (clean_path path) b'/' + 1 in
    let (r, listed, holds, same) = first_match_sound pii_rules method (clean_path path) n op h in
    (
      record { matched = r; listed = listed; holds = holds; described = same },
      ap (λ (o : PiiOperation). o.method) same
          ∙ applies_method r method (clean_path path) n
              (every_mem specific pii_rules all_specific listed) holds,
    )

-- A query string makes no difference.
pub match_pii_operation-query :
    (method path query : Text)
    → match_pii_operation method (path ++ b'?' ∷ query) ≡ match_pii_operation method path
unfolding match_pii_operation
match_pii_operation-query method path query =
    ap (λ p. first_match pii_rules method p (count_byte p b'/' + 1)) (clean_path-query path query)
