-- ===== src/Pii/Registry/Agreement.antt =====
-- internal/pii/registry.go: how its tests relate to one another and to the endpoint classifier.
use smart_proxy.Base.{
  ◌≡◌, true, false, not, ◌&&◌, ◌||◌, [], arith, if◌then◌else◌, ◌==◌, nat_eq, text_eq, text_beq_iff,
}
use smart_proxy.Base.Text.{text}
use smart_proxy.Endpoint.Classify.{classify_known}
use smart_proxy.Pii.Registry.{
  Registry, HttpRequest, contains_pii, is_full_body_pii, set_fail_closed, request_body_contains_pii,
  request_body_pattern, classify_request_body,
}

-- A response that the log replaces as a whole counts as one with personal data: if the answer to a
-- GET request is personal as a whole, the test that keeps answers out of the cache holds of the
-- request.
full_body-contains_pii :
    (reg : Registry) (r : HttpRequest)
    → r.method ≡ text "GET"
    → is_full_body_pii reg (classify_known r.path).0 (classify_known r.path).1 ≡ true
    → contains_pii reg r ≡ true
unfolding contains_pii is_full_body_pii
full_body-contains_pii reg r get h = ground (arith, text_beq_iff r.method (text "GET"))

-- Fail-closed mode adds the GET requests to unknown paths, and nothing else.
pub contains_pii-fail_closed :
    (reg : Registry) (r : HttpRequest)
    → contains_pii (set_fail_closed reg true) r ≡ (
        contains_pii (set_fail_closed reg false) r
        || (r.method == text "GET" && not (classify_known r.path).1))
unfolding contains_pii set_fail_closed
contains_pii-fail_closed reg r = ground arith

-- The body of a request counts as personal exactly when there is a pattern to redact it by, which
-- is then the one that the classification of the request gives.
pub request_body_pattern_lem :
    (reg : Registry) (r : HttpRequest)
    → request_body_pattern reg r
      ≡ (if request_body_contains_pii reg r then (classify_request_body reg r).0 else [])
unfolding request_body_pattern request_body_contains_pii
request_body_pattern_lem reg r = ground arith
