-- ===== src/TokenStore/Tests.antt =====
-- Runs of internal/tokenstore, and its theorems at concrete inputs.
use smart_proxy.Base.{
  ◌-◌, ◌≡◌, not, ◌||◌, none, some, [], ltb, if◌then◌else◌, ◌==◌, nat_eq, text_eq,
}
use smart_proxy.Base.Text.{text}
use smart_proxy.TokenStore.{new, get, set, get-set_seen}

get-set_seen_example : (get (set new (text "m") (text "t") 10) (text "m") 60).1 ≡ (
    if (text "m" == [] || text "t" == [] || not (text "m" == text "m"))
    then (get new (text "m") 60).1
    else if ltb (60 - 10) new.ttl
    then some (text "t")
    else none)
get-set_seen_example = get-set_seen new (text "m") (text "m") (text "t") 10 60
