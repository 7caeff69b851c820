-- ===== src/Merchant/Tests.antt =====
-- Runs of internal/merchant, and its theorem at a concrete input.
use smart_proxy.Base.{
  ◌≡◌, refl, true, ◌&&◌, none, some, [], ◌∷◌, if◌then◌else◌, nat_eq, text_eq, text_beq,
}
use smart_proxy.Base.Text.{Text, text}
use smart_proxy.Base.Dict.{lookup}
use smart_proxy.Merchant.Resolver.{
  Resolver, Identity, identify, is_anonymous, resolve, resolve_strict, identify_lem,
}

abbrev resolver : Resolver
resolver = record { token_map = (text "t", text "shop") ∷ []; strict = true }

abbrev short_hash : Text → Text
short_hash token = text "e3b0"

abbrev anonymous : Identity
anonymous = record { merchant_id = []; access_token = [] }

refused : identify short_hash resolver anonymous ≡ none
unfolding identify resolve_strict lookup text_beq
refused = refl

identify_lem_example : identify short_hash resolver anonymous ≡ (
    if resolver.strict && is_anonymous short_hash resolver anonymous
    then none
    else some (resolve short_hash resolver anonymous))
identify_lem_example = identify_lem short_hash resolver anonymous
