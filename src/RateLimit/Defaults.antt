-- ===== src/RateLimit/Defaults.antt =====
-- internal/ratelimit/defaults.go: the published rates, in billionths of a token a second, and bursts.
use smart_proxy.Base.{ℕ, Option, none, some, [], ◌∷◌, ◌++◌, nat_eq, text_eq}
use smart_proxy.Base.Text.{Text, text}
use smart_proxy.Base.Dict.{Dict, lookup}

pub record BucketParams : Type 0 where
  pub rate : ℕ
  pub burst : ℕ

abbrev params : ℕ → ℕ → BucketParams
params rate burst = record { rate = rate; burst = burst }

abbrev pub default_bucket_params : Dict Text BucketParams
default_bucket_params =
    (text "/orders/v0/orders", params 16_700_000 20)
    ∷ (text "/orders/v0/orders/{orderId}", params 500_000_000 30)
    ∷ (text "/orders/v0/orders/{orderId}/orderItems", params 500_000_000 30)
    ∷ (text "/orders/v0/orders/{orderId}/buyerInfo", params 500_000_000 30)
    ∷ (text "/orders/v0/orders/{orderId}/address", params 500_000_000 30)
    ∷ (text "/orders/v0/orders/{orderId}/orderItems/buyerInfo", params 500_000_000 30)
    ∷ (text "/orders/v0/orders/{orderId}/regulatedInfo", params 500_000_000 30)
    ∷ (text "/orders/v0/orders/{orderId}/shipmentConfirmation", params 2_000_000_000 10)
    ∷ (text "/orders/v0/orders/{orderId}/shipment", params 5_000_000_000 15)
    ∷ (text "/orders/2026-01-01/orders", params 5_600_000 20)
    ∷ (text "/orders/2026-01-01/orders/{orderId}", params 500_000_000 30)
    ∷ (text "/catalog/2022-04-01/items", params 2_000_000_000 2)
    ∷ (text "/catalog/2022-04-01/items/{asin}", params 2_000_000_000 2)
    ∷ (text "/feeds/2021-06-30/feeds", params 22_200_000 10)
    ∷ (text "/feeds/2021-06-30/feeds/{feedId}", params 2_000_000_000 15)
    ∷ (text "/feeds/2021-06-30/documents", params 500_000_000 15)
    ∷ (text "/feeds/2021-06-30/documents/{feedDocumentId}", params 22_200_000 10)
    ∷ (text "/reports/2021-06-30/reports", params 22_200_000 10)
    ∷ (text "/reports/2021-06-30/reports/{reportId}", params 2_000_000_000 15)
    ∷ (text "/reports/2021-06-30/schedules", params 22_200_000 10)
    ∷ (text "/reports/2021-06-30/schedules/{scheduleId}", params 22_200_000 10)
    ∷ (text "/reports/2021-06-30/documents/{documentId}", params 16_700_000 15)
    ∷ (text "/datakiosk/2023-11-15/queries", params 22_200_000 10)
    ∷ (text "/datakiosk/2023-11-15/queries/{queryId}", params 2_000_000_000 15)
    ∷ (text "/datakiosk/2023-11-15/documents/{documentId}", params 16_700_000 15)
    ∷ (text "/listings/2021-08-01/items/{sellerId}/{sku}", params 5_000_000_000 5)
    ∷ (text "/listings/2021-08-01/items/{sellerId}", params 5_000_000_000 5)
    ∷ (text "/listings/2021-08-01/restrictions", params 5_000_000_000 10)
    ∷ (text "/products/pricing/v0/competitivePrice", params 500_000_000 1)
    ∷ (text "/products/pricing/v0/price", params 500_000_000 1)
    ∷ (text "/products/pricing/v0/items/{asin}/offers", params 500_000_000 1)
    ∷ (text "/products/pricing/v0/listings/{sku}/offers", params 500_000_000 1)
    ∷ (text "/batches/products/pricing/v0/itemOffers", params 500_000_000 1)
    ∷ (text "/batches/products/pricing/v0/listingOffers", params 500_000_000 1)
    ∷ (text "/products/pricing/2022-05-01/offer/featuredOfferExpectedPrice", params 33_000_000 1)
    ∷ (text "/products/pricing/2022-05-01/offer/competitiveSummary", params 33_000_000 1)
    ∷ (text "/products/fees/v0/listings/{sku}/feesEstimate", params 1_000_000_000 2)
    ∷ (text "/products/fees/v0/items/{asin}/feesEstimate", params 1_000_000_000 2)
    ∷ (text "/products/fees/v0/feesEstimate", params 500_000_000 1)
    ∷ (text "/definitions/2020-09-01/productTypes", params 5_000_000_000 10)
    ∷ (text "/definitions/2020-09-01/productTypes/{productType}", params 5_000_000_000 10)
    ∷ (text "/fba/inventory/v1/summaries", params 2_000_000_000 2)
    ∷ (text "/fba/inventory/v1/items", params 2_000_000_000 3)
    ∷ (text "/fba/inventory/v1/items/{sku}", params 2_000_000_000 3)
    ∷ (text "/fba/inventory/v1/items/inventory", params 2_000_000_000 3)
    ∷ (text "/fba/inbound/v1/eligibility/itemPreview", params 1_000_000_000 1)
    ∷ (text "/fba/inbound/v2024-03-20/inboundPlans", params 2_000_000_000 6)
    ∷ (text "/fba/inbound/v2024-03-20/inboundPlans/{planId}", params 2_000_000_000 6)
    ∷ (text "/fba/inbound/v2024-03-20/inboundPlans/{planId}/packingOptions", params 2_000_000_000 2)
    ∷ (
      text "/fba/inbound/v2024-03-20/inboundPlans/{planId}/placementOptions",
      params 2_000_000_000 2,
    )
    ∷ (text "/fba/inbound/v0/prepInstructions", params 2_000_000_000 30)
    ∷ (text "/fba/inbound/v0/shipments", params 2_000_000_000 30)
    ∷ (text "/fba/inbound/v0/shipments/{shipmentId}/labels", params 5_000_000_000 30)
    ∷ (text "/fba/inbound/v0/shipments/{shipmentId}/billOfLading", params 2_000_000_000 30)
    ∷ (text "/fba/inbound/v0/shipments/{shipmentId}/items", params 2_000_000_000 30)
    ∷ (text "/fba/inbound/v0/shipmentItems", params 2_000_000_000 30)
    ∷ (text "/fba/outbound/2020-07-01/fulfillmentOrders", params 2_000_000_000 30)
    ∷ (text "/fba/outbound/2020-07-01/fulfillmentOrders/preview", params 2_000_000_000 30)
    ∷ (text "/fba/outbound/2020-07-01/fulfillmentOrders/{orderId}", params 2_000_000_000 30)
    ∷ (text "/fba/outbound/2020-07-01/fulfillmentOrders/{orderId}/cancel", params 2_000_000_000 30)
    ∷ (text "/fba/outbound/2020-07-01/fulfillmentOrders/{orderId}/return", params 2_000_000_000 30)
    ∷ (text "/fba/outbound/2020-07-01/deliveryOffers", params 10_000_000_000 30)
    ∷ (text "/fba/outbound/2020-07-01/tracking", params 2_000_000_000 30)
    ∷ (text "/fba/outbound/2020-07-01/returnReasonCodes", params 2_000_000_000 30)
    ∷ (text "/fba/outbound/2020-07-01/features", params 2_000_000_000 30)
    ∷ (text "/fba/outbound/2020-07-01/features/inventory/{featureName}", params 2_000_000_000 30)
    ∷ (
      text "/fba/outbound/2020-07-01/features/inventory/{featureName}/{sku}",
      params 2_000_000_000 30,
    )
    ∷ (text "/shipping/v1/shipments", params 5_000_000_000 15)
    ∷ (text "/shipping/v1/shipments/{shipmentId}", params 5_000_000_000 15)
    ∷ (text "/shipping/v1/shipments/{shipmentId}/cancel", params 5_000_000_000 15)
    ∷ (text "/shipping/v1/shipments/{shipmentId}/purchaseLabels", params 5_000_000_000 15)
    ∷ (text "/shipping/v1/containers/{trackingId}/label", params 5_000_000_000 15)
    ∷ (text "/shipping/v1/purchaseShipment", params 5_000_000_000 15)
    ∷ (text "/shipping/v1/rates", params 5_000_000_000 15)
    ∷ (text "/shipping/v1/account", params 5_000_000_000 15)
    ∷ (text "/shipping/v1/tracking/{trackingId}", params 1_000_000_000 1)
    ∷ (text "/shipping/v2/shipments", params 5_000_000_000 15)
    ∷ (text "/shipping/v2/tracking", params 5_000_000_000 15)
    ∷ (text "/shipping/v2/shipments/rates", params 5_000_000_000 15)
    ∷ (text "/shipping/v2/shipments/{shipmentId}/cancel", params 5_000_000_000 15)
    ∷ (text "/shipping/v2/shipments/{shipmentId}/documents", params 5_000_000_000 15)
    ∷ (text "/shipping/v2/oneClickShipment", params 5_000_000_000 15)
    ∷ (text "/shipping/v2/shipments/directPurchase", params 5_000_000_000 15)
    ∷ (text "/shipping/v2/collectionForms", params 5_000_000_000 15)
    ∷ (text "/mfn/v0/eligibleShippingServices", params 6_000_000_000 12)
    ∷ (text "/mfn/v0/shipments", params 2_000_000_000 2)
    ∷ (text "/mfn/v0/shipments/{shipmentId}", params 1_000_000_000 1)
    ∷ (text "/mfn/v0/sellerInputs", params 1_000_000_000 1)
    ∷ (text "/easyShip/2022-03-23/timeSlot", params 1_000_000_000 1)
    ∷ (text "/easyShip/2022-03-23/package", params 1_000_000_000 1)
    ∷ (text "/easyShip/2022-03-23/packages/bulk", params 1_000_000_000 1)
    ∷ (text "/notifications/v1/subscriptions/{type}", params 1_000_000_000 5)
    ∷ (text "/notifications/v1/subscriptions", params 1_000_000_000 5)
    ∷ (text "/notifications/v1/destinations", params 1_000_000_000 5)
    ∷ (text "/notifications/v1/destinations/{destinationId}", params 1_000_000_000 5)
    ∷ (text "/tokens/2021-03-01/restrictedDataToken", params 1_000_000_000 10)
    ∷ (text "/sellers/v1/marketplaceParticipations", params 16_000_000 15)
    ∷ (text "/sellers/v1/account", params 16_000_000 15)
    ∷ (text "/sales/v1/orderMetrics", params 500_000_000 15)
    ∷ (text "/finances/v0/financialEvents", params 500_000_000 30)
    ∷ (text "/finances/v0/financialEventGroups", params 500_000_000 30)
    ∷ (
      text "/finances/v0/financialEventGroups/{eventGroupId}/financialEvents",
      params 500_000_000 30,
    )
    ∷ (text "/finances/v0/orders/{orderId}/financialEvents", params 500_000_000 30)
    ∷ (text "/finances/2024-06-19/transactions", params 500_000_000 10)
    ∷ (text "/messaging/v1/orders/{orderId}/messages", params 1_000_000_000 5)
    ∷ (
      text "/solicitations/v1/orders/{orderId}/solicitations/productReviewAndSellerFeedback",
      params 1_000_000_000 5,
    )
    ∷ (text "/solicitations/v1/orders/{orderId}/solicitations", params 1_000_000_000 5)
    ∷ (text "/uploads/2020-11-01/uploadDestinations/{resource}", params 100_000_000 5)
    ∷ (text "/applications/2023-11-30/clientSecret", params 16_700_000 1)
    ∷ (text "/aplus/2020-11-01/contentDocuments", params 10_000_000_000 10)
    ∷ (text "/aplus/2020-11-01/contentDocuments/{contentReferenceKey}", params 10_000_000_000 10)
    ∷ (text "/aplus/2020-11-01/contentPublishRecords", params 10_000_000_000 10)
    ∷ (text "/replenishment/2022-11-07/sellingPartners/metrics/search", params 1_000_000_000 1)
    ∷ (text "/replenishment/2022-11-07/offers/metrics/search", params 1_000_000_000 1)
    ∷ (text "/replenishment/2022-11-07/offers/search", params 1_000_000_000 1)
    ∷ (text "/awd/2024-05-09/inboundShipments", params 1_000_000_000 1)
    ∷ (text "/awd/2024-05-09/inboundShipments/{shipmentId}", params 2_000_000_000 6)
    ∷ (text "/awd/2024-05-09/inventory", params 2_000_000_000 2)
    ∷ (text "/supplySources/2020-07-01/supplySources", params 1_000_000_000 10)
    ∷ (text "/supplySources/2020-07-01/supplySources/{supplySourceId}", params 1_000_000_000 10)
    ∷ (text "/vendor/directFulfillment/orders/2021-12-28/purchaseOrders", params 10_000_000_000 10)
    ∷ (
      text "/vendor/directFulfillment/orders/2021-12-28/purchaseOrders/{purchaseOrderNumber}",
      params 10_000_000_000 10,
    )
    ∷ (
      text "/vendor/directFulfillment/shipping/2021-12-28/shippingLabels",
      params 10_000_000_000 10,
    )
    ∷ (
      text "/vendor/directFulfillment/shipping/2021-12-28/shippingLabels/{purchaseOrderNumber}",
      params 10_000_000_000 10,
    )
    ∷ (
      text "/vendor/directFulfillment/shipping/2021-12-28/shipmentConfirmations",
      params 10_000_000_000 10,
    )
    ∷ (
      text "/vendor/directFulfillment/shipping/2021-12-28/shipmentStatusUpdates",
      params 10_000_000_000 10,
    )
    ∷ (
      text "/vendor/directFulfillment/shipping/2021-12-28/customerInvoices",
      params 10_000_000_000 10,
    )
    ∷ (
      text "/vendor/directFulfillment/shipping/2021-12-28/customerInvoices/{purchaseOrderNumber}",
      params 10_000_000_000 10,
    )
    ∷ (text "/vendor/directFulfillment/shipping/2021-12-28/packingSlips", params 10_000_000_000 10)
    ∷ (
      text "/vendor/directFulfillment/shipping/2021-12-28/packingSlips/{purchaseOrderNumber}",
      params 10_000_000_000 10,
    )
    ∷ (
      text "/vendor/directFulfillment/inventory/2021-12-28/inventoryUpdates",
      params 10_000_000_000 10,
    )
    ∷ (text "/vendor/directFulfillment/payments/2021-12-28/invoices", params 10_000_000_000 10)
    ∷ (
      text "/vendor/directFulfillment/transactions/2021-12-28/transactions/{transactionId}",
      params 10_000_000_000 10,
    )
    ∷ (text "/vendor/orders/v1/purchaseOrders", params 10_000_000_000 10)
    ∷ (text "/vendor/orders/v1/purchaseOrders/{purchaseOrderNumber}", params 10_000_000_000 10)
    ∷ (text "/vendor/orders/v1/purchaseOrdersStatus", params 10_000_000_000 10)
    ∷ (text "/vendor/orders/v1/acknowledgements", params 10_000_000_000 10)
    ∷ (text "/vendor/shipments/v1/shipmentConfirmations", params 10_000_000_000 10)
    ∷ (text "/vendor/shipments/v1/shipments", params 10_000_000_000 10)
    ∷ (text "/vendor/shipments/v1/shipmentLabels", params 10_000_000_000 10)
    ∷ (text "/vendor/invoices/v1/invoices", params 10_000_000_000 10)
    ∷ (text "/vendor/transactionStatus/v1/transactions/{transactionId}", params 10_000_000_000 10)
    ∷ []

abbrev pub method_bucket_overrides : Dict Text BucketParams
method_bucket_overrides =
    (text "POST:/feeds/2021-06-30/feeds", params 8_300_000 15)
    ∷ (text "POST:/reports/2021-06-30/reports", params 16_700_000 15)
    ∷ (text "POST:/datakiosk/2023-11-15/queries", params 16_700_000 15)
    ∷ []

abbrev pub app_bucket_params : Dict Text BucketParams
app_bucket_params =
    (text "GET:/catalog/2022-04-01/items", params 500_000_000_000 500)
    ∷ (text "GET:/catalog/2022-04-01/items/{asin}", params 250_000_000_000 250)
    ∷ (text "GET:/listings/2021-08-01/items/{sellerId}/{sku}", params 100_000_000_000 100)
    ∷ (text "PUT:/listings/2021-08-01/items/{sellerId}/{sku}", params 100_000_000_000 100)
    ∷ (text "PATCH:/listings/2021-08-01/items/{sellerId}/{sku}", params 500_000_000_000 500)
    ∷ (text "DELETE:/listings/2021-08-01/items/{sellerId}/{sku}", params 100_000_000_000 100)
    ∷ (text "GET:/listings/2021-08-01/items/{sellerId}", params 100_000_000_000 100)
    ∷ []

unfoldable pub lookup_defaults : Text → Text → Option BucketParams
unfolding lookup
lookup_defaults method endpoint =
    elim (lookup (method ++ b':' ∷ endpoint) method_bucket_overrides) [
      | some override ↦ some override
      | none ↦ lookup endpoint default_bucket_params
    ]
