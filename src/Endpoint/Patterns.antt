-- ===== src/Endpoint/Patterns.antt =====
-- internal/endpoint/classify.go: the table of the endpoint patterns, in its order.
use smart_proxy.Base.{ℕ, List, [], ◌∷◌}
use smart_proxy.Base.Text.{Text, text}

pub record EndpointPattern : Type 0 where
  pub prefix : Text
  pub segments : ℕ
  pub suffix : Text
  pub pattern : Text

abbrev pub ep : Text → ℕ → Text → Text → EndpointPattern
ep prefix segments suffix pattern = record {
  prefix = prefix;
  segments = segments;
  suffix = suffix;
  pattern = pattern;
}

abbrev pub endpoint_patterns : List EndpointPattern
endpoint_patterns =
    ep (text "/orders/v0/orders/") 7 (text "orderItems/buyerInfo")
      (text "/orders/v0/orders/{orderId}/orderItems/buyerInfo")
    ∷ ep (text "/orders/v0/orders/") 6 (text "orderItems")
        (text "/orders/v0/orders/{orderId}/orderItems")
    ∷ ep (text "/orders/v0/orders/") 6 (text "buyerInfo")
        (text "/orders/v0/orders/{orderId}/buyerInfo")
    ∷ ep (text "/orders/v0/orders/") 6 (text "address") (text "/orders/v0/orders/{orderId}/address")
    ∷ ep (text "/orders/v0/orders/") 6 (text "regulatedInfo")
        (text "/orders/v0/orders/{orderId}/regulatedInfo")
    ∷ ep (text "/orders/v0/orders/") 6 (text "shipmentConfirmation")
        (text "/orders/v0/orders/{orderId}/shipmentConfirmation")
    ∷ ep (text "/orders/v0/orders/") 6 (text "shipment")
        (text "/orders/v0/orders/{orderId}/shipment")
    ∷ ep (text "/orders/v0/orders/") 5 [] (text "/orders/v0/orders/{orderId}")
    ∷ ep (text "/orders/v0/orders") 4 [] (text "/orders/v0/orders")
    ∷ ep (text "/orders/2026-01-01/orders/") 5 [] (text "/orders/2026-01-01/orders/{orderId}")
    ∷ ep (text "/orders/2026-01-01/orders") 4 [] (text "/orders/2026-01-01/orders")
    ∷ ep (text "/catalog/2022-04-01/items/") 5 [] (text "/catalog/2022-04-01/items/{asin}")
    ∷ ep (text "/feeds/2021-06-30/feeds/") 5 [] (text "/feeds/2021-06-30/feeds/{feedId}")
    ∷ ep (text "/feeds/2021-06-30/documents/") 5 []
        (text "/feeds/2021-06-30/documents/{feedDocumentId}")
    ∷ ep (text "/reports/2021-06-30/reports/") 5 [] (text "/reports/2021-06-30/reports/{reportId}")
    ∷ ep (text "/reports/2021-06-30/schedules/") 5 []
        (text "/reports/2021-06-30/schedules/{scheduleId}")
    ∷ ep (text "/reports/2021-06-30/documents/") 5 []
        (text "/reports/2021-06-30/documents/{documentId}")
    ∷ ep (text "/datakiosk/2023-11-15/queries/") 5 []
        (text "/datakiosk/2023-11-15/queries/{queryId}")
    ∷ ep (text "/datakiosk/2023-11-15/documents/") 5 []
        (text "/datakiosk/2023-11-15/documents/{documentId}")
    ∷ ep (text "/listings/2021-08-01/items/") 6 []
        (text "/listings/2021-08-01/items/{sellerId}/{sku}")
    ∷ ep (text "/listings/2021-08-01/items/") 5 [] (text "/listings/2021-08-01/items/{sellerId}")
    ∷ ep (text "/products/pricing/v0/items/") 7 [] (text "/products/pricing/v0/items/{asin}/offers")
    ∷ ep (text "/products/pricing/v0/listings/") 7 []
        (text "/products/pricing/v0/listings/{sku}/offers")
    ∷ ep (text "/batches/products/pricing/v0/listingOffers") 6 []
        (text "/batches/products/pricing/v0/listingOffers")
    ∷ ep (text "/batches/products/pricing/v0/itemOffers") 6 []
        (text "/batches/products/pricing/v0/itemOffers")
    ∷ ep (text "/products/fees/v0/listings/") 7 []
        (text "/products/fees/v0/listings/{sku}/feesEstimate")
    ∷ ep (text "/products/fees/v0/items/") 7 [] (text "/products/fees/v0/items/{asin}/feesEstimate")
    ∷ ep (text "/products/fees/v0/feesEstimate") 5 [] (text "/products/fees/v0/feesEstimate")
    ∷ ep (text "/definitions/2020-09-01/productTypes/") 5 []
        (text "/definitions/2020-09-01/productTypes/{productType}")
    ∷ ep (text "/fba/inventory/v1/items/") 6 (text "inventory")
        (text "/fba/inventory/v1/items/inventory")
    ∷ ep (text "/fba/inventory/v1/items/") 6 [] (text "/fba/inventory/v1/items/{sku}")
    ∷ ep (text "/fba/inbound/v2024-03-20/inboundPlans/") 7 (text "packingOptions")
        (text "/fba/inbound/v2024-03-20/inboundPlans/{planId}/packingOptions")
    ∷ ep (text "/fba/inbound/v2024-03-20/inboundPlans/") 7 (text "placementOptions")
        (text "/fba/inbound/v2024-03-20/inboundPlans/{planId}/placementOptions")
    ∷ ep (text "/fba/inbound/v2024-03-20/inboundPlans/") 6 []
        (text "/fba/inbound/v2024-03-20/inboundPlans/{planId}")
    ∷ ep (text "/fba/inbound/v0/shipments/") 7 (text "labels")
        (text "/fba/inbound/v0/shipments/{shipmentId}/labels")
    ∷ ep (text "/fba/inbound/v0/shipments/") 7 (text "billOfLading")
        (text "/fba/inbound/v0/shipments/{shipmentId}/billOfLading")
    ∷ ep (text "/fba/inbound/v0/shipments/") 7 (text "items")
        (text "/fba/inbound/v0/shipments/{shipmentId}/items")
    ∷ ep (text "/fba/outbound/2020-07-01/features/inventory/") 8 []
        (text "/fba/outbound/2020-07-01/features/inventory/{featureName}/{sku}")
    ∷ ep (text "/fba/outbound/2020-07-01/fulfillmentOrders/") 7 (text "cancel")
        (text "/fba/outbound/2020-07-01/fulfillmentOrders/{orderId}/cancel")
    ∷ ep (text "/fba/outbound/2020-07-01/fulfillmentOrders/") 7 (text "return")
        (text "/fba/outbound/2020-07-01/fulfillmentOrders/{orderId}/return")
    ∷ ep (text "/fba/outbound/2020-07-01/features/inventory/") 7 []
        (text "/fba/outbound/2020-07-01/features/inventory/{featureName}")
    ∷ ep (text "/fba/outbound/2020-07-01/fulfillmentOrders/") 6 (text "preview")
        (text "/fba/outbound/2020-07-01/fulfillmentOrders/preview")
    ∷ ep (text "/fba/outbound/2020-07-01/fulfillmentOrders/") 6 []
        (text "/fba/outbound/2020-07-01/fulfillmentOrders/{orderId}")
    ∷ ep (text "/fba/outbound/2020-07-01/fulfillmentOrders") 5 []
        (text "/fba/outbound/2020-07-01/fulfillmentOrders")
    ∷ ep (text "/shipping/v1/shipments/") 6 (text "cancel")
        (text "/shipping/v1/shipments/{shipmentId}/cancel")
    ∷ ep (text "/shipping/v1/shipments/") 6 (text "purchaseLabels")
        (text "/shipping/v1/shipments/{shipmentId}/purchaseLabels")
    ∷ ep (text "/shipping/v1/containers/") 6 (text "label")
        (text "/shipping/v1/containers/{trackingId}/label")
    ∷ ep (text "/shipping/v1/shipments/") 5 [] (text "/shipping/v1/shipments/{shipmentId}")
    ∷ ep (text "/shipping/v1/tracking/") 5 [] (text "/shipping/v1/tracking/{trackingId}")
    ∷ ep (text "/shipping/v1/shipments") 4 [] (text "/shipping/v1/shipments")
    ∷ ep (text "/shipping/v2/shipments/") 6 (text "cancel")
        (text "/shipping/v2/shipments/{shipmentId}/cancel")
    ∷ ep (text "/shipping/v2/shipments/") 6 (text "documents")
        (text "/shipping/v2/shipments/{shipmentId}/documents")
    ∷ ep (text "/shipping/v2/shipments/rates") 5 [] (text "/shipping/v2/shipments/rates")
    ∷ ep (text "/shipping/v2/shipments/directPurchase") 5 []
        (text "/shipping/v2/shipments/directPurchase")
    ∷ ep (text "/shipping/v2/shipments") 4 [] (text "/shipping/v2/shipments")
    ∷ ep (text "/shipping/v2/oneClickShipment") 4 [] (text "/shipping/v2/oneClickShipment")
    ∷ ep (text "/mfn/v0/shipments") 4 [] (text "/mfn/v0/shipments")
    ∷ ep (text "/mfn/v0/shipments/") 5 [] (text "/mfn/v0/shipments/{shipmentId}")
    ∷ ep (text "/easyShip/2022-03-23/packages/bulk") 5 []
        (text "/easyShip/2022-03-23/packages/bulk")
    ∷ ep (text "/easyShip/2022-03-23/package") 4 [] (text "/easyShip/2022-03-23/package")
    ∷ ep (text "/notifications/v1/subscriptions/") 5 []
        (text "/notifications/v1/subscriptions/{type}")
    ∷ ep (text "/notifications/v1/destinations/") 5 []
        (text "/notifications/v1/destinations/{destinationId}")
    ∷ ep (text "/finances/v0/financialEventGroups/") 6 (text "financialEvents")
        (text "/finances/v0/financialEventGroups/{eventGroupId}/financialEvents")
    ∷ ep (text "/finances/v0/orders/") 6 (text "financialEvents")
        (text "/finances/v0/orders/{orderId}/financialEvents")
    ∷ ep (text "/finances/v0/financialEvents") 4 [] (text "/finances/v0/financialEvents")
    ∷ ep (text "/messaging/v1/orders/") 7 []
        (text "/messaging/v1/orders/{orderId}/messages/{messageId}")
    ∷ ep (text "/messaging/v1/orders/") 6 [] (text "/messaging/v1/orders/{orderId}/messages")
    ∷ ep (text "/solicitations/v1/orders/") 7 (text "productReviewAndSellerFeedback")
        (text "/solicitations/v1/orders/{orderId}/solicitations/productReviewAndSellerFeedback")
    ∷ ep (text "/solicitations/v1/orders/") 6 (text "solicitations")
        (text "/solicitations/v1/orders/{orderId}/solicitations")
    ∷ ep (text "/uploads/2020-11-01/uploadDestinations/") 5 []
        (text "/uploads/2020-11-01/uploadDestinations/{resource}")
    ∷ ep (text "/aplus/2020-11-01/contentDocuments/") 5 []
        (text "/aplus/2020-11-01/contentDocuments/{contentReferenceKey}")
    ∷ ep (text "/awd/2024-05-09/inboundShipments/") 5 []
        (text "/awd/2024-05-09/inboundShipments/{shipmentId}")
    ∷ ep (text "/supplySources/2020-07-01/supplySources/") 5 []
        (text "/supplySources/2020-07-01/supplySources/{supplySourceId}")
    ∷ ep (text "/vendor/directFulfillment/orders/2021-12-28/purchaseOrders/") 7 []
        (text "/vendor/directFulfillment/orders/2021-12-28/purchaseOrders/{purchaseOrderNumber}")
    ∷ ep (text "/vendor/directFulfillment/shipping/2021-12-28/shippingLabels/") 7 []
        (text "/vendor/directFulfillment/shipping/2021-12-28/shippingLabels/{purchaseOrderNumber}")
    ∷ ep (text "/vendor/directFulfillment/shipping/2021-12-28/customerInvoices/") 7 [] (
        text "/vendor/directFulfillment/shipping/2021-12-28/customerInvoices/{purchaseOrderNumber}")
    ∷ ep (text "/vendor/directFulfillment/shipping/2021-12-28/packingSlips/") 7 []
        (text "/vendor/directFulfillment/shipping/2021-12-28/packingSlips/{purchaseOrderNumber}")
    ∷ ep (text "/vendor/directFulfillment/transactions/2021-12-28/transactions/") 7 []
        (text "/vendor/directFulfillment/transactions/2021-12-28/transactions/{transactionId}")
    ∷ ep (text "/vendor/orders/v1/purchaseOrders/") 6 []
        (text "/vendor/orders/v1/purchaseOrders/{purchaseOrderNumber}")
    ∷ ep (text "/vendor/transactionStatus/v1/transactions/") 6 []
        (text "/vendor/transactionStatus/v1/transactions/{transactionId}")
    ∷ []
