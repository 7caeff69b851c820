-- ===== src/Pii/Rules/Response.antt =====
-- internal/pii/registry.go: the personal fields of response bodies, by endpoint.
use smart_proxy.Base.{List, [], ◌∷◌}
use smart_proxy.Base.Text.{Text, text}
use smart_proxy.Base.Dict.{Dict}
use smart_proxy.Pii.Rules.{FieldRedaction, redact, omit}

abbrev pub default_pii_rules : Dict Text (List FieldRedaction)
default_pii_rules =
    (
      text "/orders/v0/orders",
      redact (text "$.payload.Orders[*].BuyerInfo.BuyerEmail")
          ∷ redact (text "$.payload.Orders[*].BuyerInfo.BuyerName")
          ∷ redact (text "$.payload.Orders[*].BuyerInfo.BuyerCounty")
          ∷ redact (text "$.payload.Orders[*].BuyerInfo.BuyerTaxInfo")
          ∷ redact (text "$.payload.Orders[*].BuyerInfo.PurchaseOrderNumber")
          ∷ redact (text "$.payload.Orders[*].ShippingAddress.Name")
          ∷ redact (text "$.payload.Orders[*].ShippingAddress.AddressLine1")
          ∷ redact (text "$.payload.Orders[*].ShippingAddress.AddressLine2")
          ∷ redact (text "$.payload.Orders[*].ShippingAddress.AddressLine3")
          ∷ redact (text "$.payload.Orders[*].ShippingAddress.City")
          ∷ redact (text "$.payload.Orders[*].ShippingAddress.StateOrRegion")
          ∷ redact (text "$.payload.Orders[*].ShippingAddress.PostalCode")
          ∷ redact (text "$.payload.Orders[*].ShippingAddress.Phone")
          ∷ redact (text "$.payload.Orders[*].ShippingAddress.AddressType")
          ∷ redact (text "$.payload.Orders[*].ShippingAddress.ExtendedFields")
          ∷ [],
    )
    ∷ (
      text "/orders/v0/orders/{orderId}",
      redact (text "$.payload.BuyerInfo.BuyerEmail")
          ∷ redact (text "$.payload.BuyerInfo.BuyerName")
          ∷ redact (text "$.payload.BuyerInfo.BuyerCounty")
          ∷ redact (text "$.payload.BuyerInfo.BuyerTaxInfo")
          ∷ redact (text "$.payload.BuyerInfo.PurchaseOrderNumber")
          ∷ redact (text "$.payload.ShippingAddress.Name")
          ∷ redact (text "$.payload.ShippingAddress.AddressLine1")
          ∷ redact (text "$.payload.ShippingAddress.AddressLine2")
          ∷ redact (text "$.payload.ShippingAddress.AddressLine3")
          ∷ redact (text "$.payload.ShippingAddress.City")
          ∷ redact (text "$.payload.ShippingAddress.StateOrRegion")
          ∷ redact (text "$.payload.ShippingAddress.PostalCode")
          ∷ redact (text "$.payload.ShippingAddress.Phone")
          ∷ redact (text "$.payload.ShippingAddress.AddressType")
          ∷ redact (text "$.payload.ShippingAddress.ExtendedFields")
          ∷ [],
    )
    ∷ (
      text "/orders/v0/orders/{orderId}/orderItems",
      redact (text "$.payload.OrderItems[*].BuyerInfo.BuyerCustomizedInfo")
          ∷ redact (text "$.payload.OrderItems[*].BuyerInfo.GiftMessageText")
          ∷ [],
    )
    ∷ (
      text "/shipping/v2/shipments",
      redact (text "$.payload.Shipments[*].ShipTo.Name")
          ∷ redact (text "$.payload.Shipments[*].ShipTo.AddressLine1")
          ∷ redact (text "$.payload.Shipments[*].ShipTo.AddressLine2")
          ∷ redact (text "$.payload.Shipments[*].ShipTo.City")
          ∷ redact (text "$.payload.Shipments[*].ShipTo.StateOrRegion")
          ∷ redact (text "$.payload.Shipments[*].ShipTo.PostalCode")
          ∷ redact (text "$.payload.Shipments[*].ShipTo.Phone")
          ∷ redact (text "$.payload.Shipments[*].ShipTo.Email")
          ∷ [],
    )
    ∷ (
      text "/shipping/v1/shipments/{shipmentId}",
      redact (text "$.payload.shipTo.name")
          ∷ redact (text "$.payload.shipTo.addressLine1")
          ∷ redact (text "$.payload.shipTo.addressLine2")
          ∷ redact (text "$.payload.shipTo.addressLine3")
          ∷ redact (text "$.payload.shipTo.city")
          ∷ redact (text "$.payload.shipTo.stateOrRegion")
          ∷ redact (text "$.payload.shipTo.postalCode")
          ∷ redact (text "$.payload.shipTo.email")
          ∷ redact (text "$.payload.shipFrom.name")
          ∷ redact (text "$.payload.shipFrom.addressLine1")
          ∷ redact (text "$.payload.shipFrom.addressLine2")
          ∷ redact (text "$.payload.shipFrom.addressLine3")
          ∷ redact (text "$.payload.shipFrom.city")
          ∷ redact (text "$.payload.shipFrom.stateOrRegion")
          ∷ redact (text "$.payload.shipFrom.postalCode")
          ∷ redact (text "$.payload.shipFrom.email")
          ∷ [],
    )
    ∷ (
      text "/mfn/v0/shipments",
      redact (text "$.payload.ShipFromAddress.Name")
          ∷ redact (text "$.payload.ShipFromAddress.AddressLine1")
          ∷ redact (text "$.payload.ShipFromAddress.City")
          ∷ redact (text "$.payload.ShipFromAddress.PostalCode")
          ∷ redact (text "$.payload.ShipFromAddress.Phone")
          ∷ redact (text "$.payload.ShipFromAddress.Email")
          ∷ redact (text "$.payload.ShipToAddress.Name")
          ∷ redact (text "$.payload.ShipToAddress.AddressLine1")
          ∷ redact (text "$.payload.ShipToAddress.City")
          ∷ redact (text "$.payload.ShipToAddress.PostalCode")
          ∷ redact (text "$.payload.ShipToAddress.Phone")
          ∷ redact (text "$.payload.ShipToAddress.Email")
          ∷ [],
    )
    ∷ (
      text "/mfn/v0/shipments/{shipmentId}",
      redact (text "$.payload.ShipFromAddress.Name")
          ∷ redact (text "$.payload.ShipFromAddress.AddressLine1")
          ∷ redact (text "$.payload.ShipFromAddress.AddressLine2")
          ∷ redact (text "$.payload.ShipFromAddress.City")
          ∷ redact (text "$.payload.ShipFromAddress.StateOrRegion")
          ∷ redact (text "$.payload.ShipFromAddress.PostalCode")
          ∷ redact (text "$.payload.ShipFromAddress.Phone")
          ∷ redact (text "$.payload.ShipFromAddress.Email")
          ∷ redact (text "$.payload.ShipToAddress.Name")
          ∷ redact (text "$.payload.ShipToAddress.AddressLine1")
          ∷ redact (text "$.payload.ShipToAddress.AddressLine2")
          ∷ redact (text "$.payload.ShipToAddress.City")
          ∷ redact (text "$.payload.ShipToAddress.StateOrRegion")
          ∷ redact (text "$.payload.ShipToAddress.PostalCode")
          ∷ redact (text "$.payload.ShipToAddress.Phone")
          ∷ redact (text "$.payload.ShipToAddress.Email")
          ∷ [],
    )
    ∷ (
      text "/fba/outbound/2020-07-01/fulfillmentOrders",
      redact (text "$.payload.FulfillmentOrders[*].DestinationAddress.Name")
          ∷ redact (text "$.payload.FulfillmentOrders[*].DestinationAddress.Line1")
          ∷ redact (text "$.payload.FulfillmentOrders[*].DestinationAddress.Line2")
          ∷ redact (text "$.payload.FulfillmentOrders[*].DestinationAddress.City")
          ∷ redact (text "$.payload.FulfillmentOrders[*].DestinationAddress.PostalCode")
          ∷ redact (text "$.payload.FulfillmentOrders[*].DestinationAddress.Phone")
          ∷ [],
    )
    ∷ (
      text "/fba/outbound/2020-07-01/fulfillmentOrders/{orderId}",
      redact (text "$.payload.FulfillmentOrder.DestinationAddress.Name")
          ∷ redact (text "$.payload.FulfillmentOrder.DestinationAddress.Line1")
          ∷ redact (text "$.payload.FulfillmentOrder.DestinationAddress.Line2")
          ∷ redact (text "$.payload.FulfillmentOrder.DestinationAddress.City")
          ∷ redact (text "$.payload.FulfillmentOrder.DestinationAddress.StateOrRegion")
          ∷ redact (text "$.payload.FulfillmentOrder.DestinationAddress.PostalCode")
          ∷ redact (text "$.payload.FulfillmentOrder.DestinationAddress.Phone")
          ∷ [],
    )
    ∷ (
      text "/messaging/v1/orders/{orderId}/messages",
      redact (text "$.payload.Messages[*].MessageText")
          ∷ omit (text "$.payload.Messages[*].Attachments")
          ∷ [],
    )
    ∷ (
      text "/finances/v0/financialEvents",
      redact (text "$.payload.FinancialEvents.ShipmentEventList[*].AmazonOrderId") ∷ [],
    )
    ∷ (
      text "/finances/v0/financialEventGroups/{eventGroupId}/financialEvents",
      redact (text "$.payload.FinancialEvents.ShipmentEventList[*].AmazonOrderId") ∷ [],
    )
    ∷ (
      text "/finances/v0/orders/{orderId}/financialEvents",
      redact (text "$.payload.FinancialEvents.ShipmentEventList[*].AmazonOrderId") ∷ [],
    )
    ∷ (
      text "/easyShip/2022-03-23/package",
      redact (text "$.payload.ScheduledPackageId.AmazonOrderId")
          ∷ redact (text "$.payload.PackageDetails.PackagePickUpSlot.SlotId")
          ∷ [],
    )
    ∷ (
      text "/orders/v0/orders/{orderId}/regulatedInfo",
      redact (text "$.payload.RegulatedInformation.Fields[*].FieldValue")
          ∷ redact (text "$.payload.BuyerInfo.BuyerEmail")
          ∷ redact (text "$.payload.BuyerInfo.BuyerName")
          ∷ redact (text "$.payload.ShippingAddress.Name")
          ∷ redact (text "$.payload.ShippingAddress.AddressLine1")
          ∷ redact (text "$.payload.ShippingAddress.AddressLine2")
          ∷ redact (text "$.payload.ShippingAddress.AddressLine3")
          ∷ redact (text "$.payload.ShippingAddress.City")
          ∷ redact (text "$.payload.ShippingAddress.StateOrRegion")
          ∷ redact (text "$.payload.ShippingAddress.PostalCode")
          ∷ redact (text "$.payload.ShippingAddress.Phone")
          ∷ [],
    )
    ∷ (
      text "/reports/2021-06-30/documents/{documentId}",
      redact (text "$.url") ∷ redact (text "$.encryptionDetails.key") ∷ [],
    )
    ∷ (
      text "/feeds/2021-06-30/documents/{feedDocumentId}",
      redact (text "$.url") ∷ redact (text "$.encryptionDetails.key") ∷ [],
    )
    ∷ (text "/datakiosk/2023-11-15/documents/{documentId}", redact (text "$.documentUrl") ∷ [])
    ∷ (
      text "/vendor/directFulfillment/orders/2021-12-28/purchaseOrders/{purchaseOrderNumber}",
      redact (text "$.payload.orderDetails.shipToParty.address.name")
          ∷ redact (text "$.payload.orderDetails.shipToParty.address.addressLine1")
          ∷ redact (text "$.payload.orderDetails.shipToParty.address.addressLine2")
          ∷ redact (text "$.payload.orderDetails.shipToParty.address.addressLine3")
          ∷ redact (text "$.payload.orderDetails.shipToParty.address.city")
          ∷ redact (text "$.payload.orderDetails.shipToParty.address.district")
          ∷ redact (text "$.payload.orderDetails.shipToParty.address.stateOrRegion")
          ∷ redact (text "$.payload.orderDetails.shipToParty.address.postalCode")
          ∷ redact (text "$.payload.orderDetails.shipToParty.address.phone")
          ∷ [],
    )
    ∷ []
