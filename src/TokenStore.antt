-- ===== src/TokenStore.antt =====
-- internal/tokenstore/store.go: the last access token that each merchant was seen with, for replays.
-- Times are nanoseconds; the reason for a missing token is a value in place of its English text.
use smart_proxy.Base.{
  ℕ, zero, suc, ◌+◌, ◌-◌, ◌*◌, ◌/◌, ◌%◌, ◌^◌, ◌≤◌, ◌<◌, ◌≡◌, refl, sym, ap, subst, ◌∙◌, ◌≢◌, ◌↔◌,
  ◌⊎◌, inl, inr, Bool, true, false, not, ◌&&◌, ◌||◌, Option, none, some, List, [], ◌∷◌, ◌++◌, map,
  arith, ltb, leb, if◌then◌else◌, Eq, ◌==◌, nat_eq, text_eq, text_beq, nat_beq_iff, text_beq_iff,
  Bool-cases, Option-cases, length, All, keep,
}
use smart_proxy.Base.Text
use smart_proxy.Base.Text.{Text, text, has_prefix, has_suffix}
use smart_proxy.Base.Dict.{Dict, lookup, insert, erase, IsDistinct, lookup-insert, lookup-erase}
mod Tests

pub record Entry : Type 0 where
  pub token : Text
  pub seen_at : ℕ

pub record Store : Type 0 where
  pub entries : Dict Text Entry
  pub ttl : ℕ

unfoldable pub new_with_ttl : ℕ → Store
new_with_ttl ttl = record { entries = []; ttl = ttl }

-- 55 minutes
unfoldable pub new : Store
unfolding new_with_ttl
new = new_with_ttl 3_300_000_000_000

unfoldable pub set : Store → Text → Text → ℕ → Store
set s merchant_key token now = if merchant_key == [] || token == [] then s else record s {
  entries = insert merchant_key (record { token = token; seen_at = now }) s.entries;
}

unfoldable pub get : Store → Text → ℕ → Store × Option Text
get s merchant_key now = elim (lookup merchant_key s.entries) [
  | none ↦ (s, none)
  | some e ↦
      if leb s.ttl (now - e.seen_at)
      then (record s { entries = erase merchant_key s.entries }, none)
      else (s, some e.token)
]

pub data Unavailability : Type 0 where
  available never_seen : Unavailability
  expired : ℕ → Unavailability

unfoldable pub unavailability_reason : Store → Text → ℕ → Unavailability
unavailability_reason s merchant_key now = elim (lookup merchant_key s.entries) [
  | none ↦ never_seen
  | some e ↦ if ltb (now - e.seen_at) s.ttl then available else expired (now - e.seen_at)
]

-- A token that a merchant was seen with is given out again until its time is up, and then forgotten;
-- other merchants' tokens are as before. A request without a merchant or a token changes nothing.
pub get-set_seen :
    (s : Store) (m other token : Text) (now later : ℕ)
    → (get (set s m token now) other later).1 ≡ (
        if (m == [] || token == [] || not (m == other))
        then (get s other later).1
        else if ltb (later - now) s.ttl
        then some token
        else none)
unfolding get set
get-set_seen s m other token now later =
    ground (arith, lookup-insert m other (record { token = token; seen_at = now }) s.entries)

abbrev pub is_available : Unavailability → Bool
is_available available = true
is_available never_seen = false
is_available (expired age) = false

abbrev pub is_some : Option Text → Bool
is_some none = false
is_some (some t) = true

-- The store has a reason for a missing token exactly where it gives out none.
pub unavailability_reason-get :
    (s : Store) (m : Text) (now : ℕ)
    → is_available (unavailability_reason s m now) ≡ is_some (get s m now).1
unfolding unavailability_reason get
unavailability_reason-get s m now = ground arith
