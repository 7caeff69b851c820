-- ===== src/Base/Tests.antt =====
-- Boolean tests, the conditional, and equality as an interface.
use Prim.Native.Nat.{ℕ, ◌≤◌, ◌<◌, compare, Ordering}
use mathlib.Core.Path.{◌≡◌, refl, subst}
use mathlib.Core.Logic.{◌↔◌, ◌⊎◌, inl, inr}
use mathlib.Core.Bool.{Bool, true, false, ◌&&◌}
use mathlib.Core.Option.{Option, none, some}
use mathlib.Core.List.{List, [], ◌∷◌}
use native.Mathlib.Omega.{arith}

abbrev pub ltb : ℕ → ℕ → Bool
ltb a b = elim (compare a b) [ Ordering.lt ↦ true | _ ↦ false ]

abbrev pub leb : ℕ → ℕ → Bool
leb a b = elim (compare a b) [ Ordering.gt ↦ false | _ ↦ true ]

abbrev pub nat_beq : ℕ → ℕ → Bool
nat_beq a b = elim (compare a b) [ Ordering.eq ↦ true | _ ↦ false ]

pub nat_beq_iff : (a b : ℕ) → (nat_beq a b ≡ true) ↔ (a ≡ b)
nat_beq_iff a b = ground arith

infix 1 if◌then◌else◌
abbrev pub if◌then◌else◌ {ℓ} : {A : Type ℓ} → Bool → A → A → A
if true then x else y = x
if false then x else y = y

pub ltb→lt : (a b : ℕ) → ltb a b ≡ true → a < b
ltb→lt a b h = ground arith

pub ltb→le : (a b : ℕ) → ltb a b ≡ false → b ≤ a
ltb→le a b h = ground arith

pub leb→le : (a b : ℕ) → leb a b ≡ true → a ≤ b
leb→le a b h = ground arith

pub leb→lt : (a b : ℕ) → leb a b ≡ false → b < a
leb→lt a b h = ground arith

pub ruleset tests = (arith, ltb→lt, ltb→le, leb→le, leb→lt)

-- A split on a computed value that keeps the equation.
pub Bool-cases : (b : Bool) → (b ≡ true) ⊎ (b ≡ false)
Bool-cases true = inl refl
Bool-cases false = inr refl

pub Option-cases {ℓ} : {A : Type ℓ} (o : Option A) → (o ≡ none) ⊎ ((a : A) × (o ≡ some a))
Option-cases none = inl refl
Option-cases (some a) = inr (a, refl)

-- Texts are sequences of bytes.
unfoldable pub text_beq : List ℕ → List ℕ → Bool
text_beq [] [] = true
text_beq [] (y ∷ ys) = false
text_beq (x ∷ xs) [] = false
text_beq (x ∷ xs) (y ∷ ys) = nat_beq x y && text_beq xs ys

text_beq_sound : (a b : List ℕ) → text_beq a b ≡ true → a ≡ b
unfolding text_beq
text_beq_sound [] [] h = refl
text_beq_sound [] (y ∷ ys) h = cc
text_beq_sound (x ∷ xs) [] h = cc
text_beq_sound (x ∷ xs) (y ∷ ys) h = ground (arith, text_beq_sound xs ys)

pub text_beq_refl : (a : List ℕ) → text_beq a a ≡ true
unfolding text_beq
text_beq_refl [] = refl
text_beq_refl (x ∷ xs) = ground (arith, text_beq_refl xs)

pub text_beq_iff : (a b : List ℕ) → (text_beq a b ≡ true) ↔ (a ≡ b)
text_beq_iff a b = (text_beq_sound a b, λ e. subst (λ c. text_beq a c ≡ true) e (text_beq_refl a))

-- Types whose equality the program tests.
pub record Eq {ℓ} (K : Type ℓ) : Type ℓ where
  pub equal : K → K → Bool
  pub equal_iff : (j k : K) → (equal j k ≡ true) ↔ (j ≡ k)

instance abbrev pub text_eq : Eq (List ℕ)
text_eq = record { equal = text_beq; equal_iff = text_beq_iff }

instance abbrev pub nat_eq : Eq ℕ
nat_eq = record { equal = nat_beq; equal_iff = nat_beq_iff }

infix 50 ◌==◌
abbrev pub ◌==◌ {ℓ} : {K : Type ℓ} ⦃eq : Eq K⦄ → K → K → Bool
◌==◌ ⦃eq⦄ = eq.equal
