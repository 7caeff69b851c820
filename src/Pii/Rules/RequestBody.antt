-- ===== src/Pii/Rules/RequestBody.antt =====
-- internal/pii/registry.go: the personal fields of request bodies, by endpoint.
use smart_proxy.Base.{List, [], ◌∷◌}
use smart_proxy.Base.Text.{Text, text}
use smart_proxy.Base.Dict.{Dict}
use smart_proxy.Pii.Rules.{FieldRedaction, redact}

abbrev pub shipping_v2_address_rules : List FieldRedaction
shipping_v2_address_rules =
    redact (text "$.shipTo.name")
    ∷ redact (text "$.shipTo.companyName")
    ∷ redact (text "$.shipTo.addressLine1")
    ∷ redact (text "$.shipTo.addressLine2")
    ∷ redact (text "$.shipTo.addressLine3")
    ∷ redact (text "$.shipTo.city")
    ∷ redact (text "$.shipTo.stateOrRegion")
    ∷ redact (text "$.shipTo.postalCode")
    ∷ redact (text "$.shipTo.phoneNumber")
    ∷ redact (text "$.shipTo.email")
    ∷ redact (text "$.shipFrom.name")
    ∷ redact (text "$.shipFrom.companyName")
    ∷ redact (text "$.shipFrom.addressLine1")
    ∷ redact (text "$.shipFrom.addressLine2")
    ∷ redact (text "$.shipFrom.addressLine3")
    ∷ redact (text "$.shipFrom.city")
    ∷ redact (text "$.shipFrom.stateOrRegion")
    ∷ redact (text "$.shipFrom.postalCode")
    ∷ redact (text "$.shipFrom.phoneNumber")
    ∷ redact (text "$.shipFrom.email")
    ∷ redact (text "$.returnTo.name")
    ∷ redact (text "$.returnTo.companyName")
    ∷ redact (text "$.returnTo.addressLine1")
    ∷ redact (text "$.returnTo.addressLine2")
    ∷ redact (text "$.returnTo.addressLine3")
    ∷ redact (text "$.returnTo.city")
    ∷ redact (text "$.returnTo.stateOrRegion")
    ∷ redact (text "$.returnTo.postalCode")
    ∷ redact (text "$.returnTo.phoneNumber")
    ∷ redact (text "$.returnTo.email")
    ∷ redact (text "$.packages[*].sellerDisplayName")
    ∷ []

abbrev pub default_request_body_pii_rules : Dict Text (List FieldRedaction)
default_request_body_pii_rules =
    (
      text "/messaging/v1/orders/{orderId}/messages/createConfirmServiceDetails",
      redact (text "$.message.text") ∷ [],
    )
    ∷ (
      text "/messaging/v1/orders/{orderId}/messages/createConfirmDeliveryDetails",
      redact (text "$.message.text") ∷ [],
    )
    ∷ (
      text "/messaging/v1/orders/{orderId}/messages/createUnexpectedProblem",
      redact (text "$.message.text") ∷ [],
    )
    ∷ (
      text "/messaging/v1/orders/{orderId}/messages/createConfirmOrderDetails",
      redact (text "$.message.text") ∷ [],
    )
    ∷ (
      text "/messaging/v1/orders/{orderId}/messages/createWarranty",
      redact (text "$.message.text") ∷ [],
    )
    ∷ (
      text "/messaging/v1/orders/{orderId}/messages/createDigitalAccessKey",
      redact (text "$.message.text") ∷ [],
    )
    ∷ (
      text "/messaging/v1/orders/{orderId}/messages/createLegalDisclosure",
      redact (text "$.message.text") ∷ [],
    )
    ∷ (
      text "/messaging/v1/orders/{orderId}/messages/createAmazonMotors",
      redact (text "$.message.text") ∷ [],
    )
    ∷ (
      text "/messaging/v1/orders/{orderId}/messages/sendInvoice",
      redact (text "$.message.text") ∷ [],
    )
    ∷ (
      text "/messaging/v1/orders/{orderId}/messages/confirmCustomizationDetails",
      redact (text "$.message.text") ∷ [],
    )
    ∷ (
      text "/mfn/v0/shipments",
      redact (text "$.ShipmentRequestDetails.ShipFromAddress.Name")
          ∷ redact (text "$.ShipmentRequestDetails.ShipFromAddress.AddressLine1")
          ∷ redact (text "$.ShipmentRequestDetails.ShipFromAddress.AddressLine2")
          ∷ redact (text "$.ShipmentRequestDetails.ShipFromAddress.AddressLine3")
          ∷ redact (text "$.ShipmentRequestDetails.ShipFromAddress.DistrictOrCounty")
          ∷ redact (text "$.ShipmentRequestDetails.ShipFromAddress.City")
          ∷ redact (text "$.ShipmentRequestDetails.ShipFromAddress.StateOrProvinceCode")
          ∷ redact (text "$.ShipmentRequestDetails.ShipFromAddress.PostalCode")
          ∷ redact (text "$.ShipmentRequestDetails.ShipFromAddress.Phone")
          ∷ redact (text "$.ShipmentRequestDetails.ShipFromAddress.Email")
          ∷ [],
    )
    ∷ (
      text "/shipping/v1/shipments",
      redact (text "$.shipTo.name")
          ∷ redact (text "$.shipTo.addressLine1")
          ∷ redact (text "$.shipTo.addressLine2")
          ∷ redact (text "$.shipTo.addressLine3")
          ∷ redact (text "$.shipTo.city")
          ∷ redact (text "$.shipTo.stateOrRegion")
          ∷ redact (text "$.shipTo.postalCode")
          ∷ redact (text "$.shipTo.phoneNumber")
          ∷ redact (text "$.shipTo.email")
          ∷ redact (text "$.shipTo.copyEmails")
          ∷ redact (text "$.shipFrom.name")
          ∷ redact (text "$.shipFrom.addressLine1")
          ∷ redact (text "$.shipFrom.addressLine2")
          ∷ redact (text "$.shipFrom.addressLine3")
          ∷ redact (text "$.shipFrom.city")
          ∷ redact (text "$.shipFrom.stateOrRegion")
          ∷ redact (text "$.shipFrom.postalCode")
          ∷ redact (text "$.shipFrom.phoneNumber")
          ∷ redact (text "$.shipFrom.email")
          ∷ redact (text "$.shipFrom.copyEmails")
          ∷ [],
    )
    ∷ (text "/shipping/v2/shipments/rates", shipping_v2_address_rules)
    ∷ (text "/shipping/v2/shipments/directPurchase", shipping_v2_address_rules)
    ∷ (text "/shipping/v2/oneClickShipment", shipping_v2_address_rules)
    ∷ (
      text "/fba/outbound/2020-07-01/fulfillmentOrders/preview",
      redact (text "$.destinationAddress.name")
          ∷ redact (text "$.destinationAddress.line1")
          ∷ redact (text "$.destinationAddress.line2")
          ∷ redact (text "$.destinationAddress.city")
          ∷ redact (text "$.destinationAddress.stateOrRegion")
          ∷ redact (text "$.destinationAddress.postalCode")
          ∷ redact (text "$.destinationAddress.phone")
          ∷ [],
    )
    ∷ []
