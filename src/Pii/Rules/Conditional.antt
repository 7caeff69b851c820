-- ===== src/Pii/Rules/Conditional.antt =====
-- internal/pii/registry.go: the personal fields of responses that carry them only on demand.
use smart_proxy.Base.{List, [], ◌∷◌}
use smart_proxy.Base.Text.{Text, text}
use smart_proxy.Base.Dict.{Dict}
use smart_proxy.Pii.Rules.{FieldRedaction, redact}

abbrev pub conditional_pii_rules : Dict Text (List FieldRedaction)
conditional_pii_rules =
    (
      text "/orders/2026-01-01/orders",
      redact (text "$.orders[*].buyer.buyerName")
          ∷ redact (text "$.orders[*].buyer.buyerEmail")
          ∷ redact (text "$.orders[*].buyer.buyerCompanyName")
          ∷ redact (text "$.orders[*].buyer.buyerPurchaseOrderNumber")
          ∷ redact (text "$.orders[*].recipient.deliveryAddress.name")
          ∷ redact (text "$.orders[*].recipient.deliveryAddress.companyName")
          ∷ redact (text "$.orders[*].recipient.deliveryAddress.addressLine1")
          ∷ redact (text "$.orders[*].recipient.deliveryAddress.addressLine2")
          ∷ redact (text "$.orders[*].recipient.deliveryAddress.addressLine3")
          ∷ redact (text "$.orders[*].recipient.deliveryAddress.city")
          ∷ redact (text "$.orders[*].recipient.deliveryAddress.districtOrCounty")
          ∷ redact (text "$.orders[*].recipient.deliveryAddress.stateOrRegion")
          ∷ redact (text "$.orders[*].recipient.deliveryAddress.municipality")
          ∷ redact (text "$.orders[*].recipient.deliveryAddress.postalCode")
          ∷ redact (text "$.orders[*].recipient.deliveryAddress.phone")
          ∷ redact (text "$.orders[*].recipient.deliveryAddress.extendedFields")
          ∷ redact (text "$.orders[*].recipient.deliveryPreference.dropOffLocation")
          ∷ redact (text "$.orders[*].recipient.deliveryPreference.addressInstruction")
          ∷ [],
    )
    ∷ (
      text "/orders/2026-01-01/orders/{orderId}",
      redact (text "$.buyer.buyerName")
          ∷ redact (text "$.buyer.buyerEmail")
          ∷ redact (text "$.buyer.buyerCompanyName")
          ∷ redact (text "$.buyer.buyerPurchaseOrderNumber")
          ∷ redact (text "$.recipient.deliveryAddress.name")
          ∷ redact (text "$.recipient.deliveryAddress.companyName")
          ∷ redact (text "$.recipient.deliveryAddress.addressLine1")
          ∷ redact (text "$.recipient.deliveryAddress.addressLine2")
          ∷ redact (text "$.recipient.deliveryAddress.addressLine3")
          ∷ redact (text "$.recipient.deliveryAddress.city")
          ∷ redact (text "$.recipient.deliveryAddress.districtOrCounty")
          ∷ redact (text "$.recipient.deliveryAddress.stateOrRegion")
          ∷ redact (text "$.recipient.deliveryAddress.municipality")
          ∷ redact (text "$.recipient.deliveryAddress.postalCode")
          ∷ redact (text "$.recipient.deliveryAddress.phone")
          ∷ redact (text "$.recipient.deliveryAddress.extendedFields")
          ∷ redact (text "$.recipient.deliveryPreference.dropOffLocation")
          ∷ redact (text "$.recipient.deliveryPreference.addressInstruction")
          ∷ [],
    )
    ∷ []
