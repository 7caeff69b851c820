-- ===== src/RateLimit/Admission/Ends.antt =====
-- internal/ratelimit/middleware.go: the loop that waits for the application's bucket ends.
use smart_proxy.Base.{ℕ, ◌≡◌, ◌⊎◌, false, Option, none, some, List, nat_eq, text_eq, All}
use smart_proxy.Base.Text.{Text}
use smart_proxy.RateLimit.Limiter.{Limiter}
use smart_proxy.RateLimit.Admission.{Served, Wake, timer}

-- The timer ended every pause.
abbrev pub AllTimed : List (ℕ × Wake) → Type 0
AllTimed rounds = All (λ round. round.1 ≡ timer) rounds

-- The request goes on, or it is turned away with the given status.
abbrev pub Answers : ℕ → Option Served → Type 0
Answers status stopped =
    (stopped ≡ none)
    ⊎ ((served : Served) × (stopped ≡ some served)
        × (served.forwarded ≡ false)
        × (served.status ≡ status))
