-- ===== src/Endpoint/Tests.antt =====
-- Runs of internal/endpoint, and the theorems at concrete inputs.
use smart_proxy.Base.{◌≡◌, refl, true, false, nat_eq, text_eq, text_beq}
use smart_proxy.Base.Text.{
  text, has_prefix, has_suffix, clean_path, count_byte, strip_query, trim_right, drop_front,
}
use smart_proxy.Endpoint.Classify.{classify_known, classify_cleaned, first_pattern, matches}
use smart_proxy.Endpoint.Known.{classify_known-Classified, Classified}

classified :
    (classify_known (text "/orders/v0/orders/9-1/?a=b")
      ≡ (text "/orders/v0/orders/{orderId}", true))
    × (classify_known (text "/no/such/") ≡ (text "/no/such", false))
unfolding classify_known classify_cleaned first_pattern matches has_prefix has_suffix clean_path
    count_byte strip_query trim_right drop_front text_beq
classified = (refl, refl)

classify_known-Classified_example :
    Classified
      (text "/orders/v0/orders/9-1/?a=b")
      (classify_known (text "/orders/v0/orders/9-1/?a=b"))
classify_known-Classified_example = classify_known-Classified (text "/orders/v0/orders/9-1/?a=b")
