-- ===== src/Base/Tests.antt =====
-- Boolean tests on numbers, texts and optional values, and the conditional.
use Prim.Native.Nat.{ℕ, zero, suc, compare, Ordering}
use Prim.Native.String.{String}
use mathlib.Core.Path.{◌≡◌, refl}
use mathlib.Core.Logic.{◌↔◌, ◌⊎◌, inl, inr}
use mathlib.Core.Bool.{Bool, true, false, ◌&&◌, ◌||◌}
use mathlib.Core.Option.{Option, none, some}
use native.Mathlib.Omega.{arith}
use text.Mathlib.Text.{◌==◌ as text_beq}
use text.Mathlib.TextEquality.{eq_iff}

abbrev pub ltb : ℕ → ℕ → Bool
ltb a b = elim (compare a b) [ Ordering.lt ↦ true | _ ↦ false ]

abbrev pub leb : ℕ → ℕ → Bool
leb a b = elim (compare a b) [ Ordering.gt ↦ false | _ ↦ true ]

infix 50 ◌==◌
abbrev pub ◌==◌ : ℕ → ℕ → Bool
a == b = elim (compare a b) [ Ordering.eq ↦ true | _ ↦ false ]

infix 1 if◌then◌else◌
abbrev pub if◌then◌else◌ {ℓ} : {A : Type ℓ} → Bool → A → A → A
if true then x else y = x
if false then x else y = y

pub ==_iff : (a b : ℕ) → ((a == b) ≡ true) ↔ (a ≡ b)
==_iff a b = ground arith

pub Bool-cases : (b : Bool) → (b ≡ true) ⊎ (b ≡ false)
Bool-cases true = inl refl
Bool-cases false = inr refl

pub Option-cases {ℓ} : {A : Type ℓ} (o : Option A) → (o ≡ none) ⊎ ((a : A) × (o ≡ some a))
Option-cases none = inl refl
Option-cases (some a) = inr (a, refl)

-- Equality of whole texts.
abbrev pub str_eq : String → String → Bool
str_eq = text_beq

pub str_eq_iff : (a b : String) → (str_eq a b ≡ true) ↔ (a ≡ b)
str_eq_iff = eq_iff

pub str_eq_refl : (a : String) → str_eq a a ≡ true
str_eq_refl a = (eq_iff a a).1 refl

-- `text[:n]`
unfoldable pub shorten : ℕ → String → String
shorten zero s = String.[]
shorten (suc n) String.[] = String.[]
shorten (suc n) (String.◌∷◌ c s) = String.◌∷◌ c (shorten n s)

-- A value is there.
abbrev pub is_some {ℓ} : {A : Type ℓ} → Option A → Bool
is_some none = false
is_some (some a) = true

-- `None == None`, and two texts by their content.
abbrev pub opt_eq : Option String → Option String → Bool
opt_eq none none = true
opt_eq none (some b) = false
opt_eq (some a) none = false
opt_eq (some a) (some b) = str_eq a b

pub opt_eq_refl : (a : Option String) → opt_eq a a ≡ true
opt_eq_refl none = refl
opt_eq_refl (some a) = str_eq_refl a

pub opt_eq_sound : (a b : Option String) → opt_eq a b ≡ true → a ≡ b
opt_eq_sound none none h = refl
opt_eq_sound none (some b) h = ground arith
opt_eq_sound (some a) none h = ground arith
opt_eq_sound (some a) (some b) h = ground (arith, eq_iff a b)

pub and_split : (a b : Bool) → (a && b) ≡ true → (a ≡ true) × (b ≡ true)
and_split true b h = (refl, h)
and_split false b h = ground (arith, h)

pub and_join : (a b : Bool) → a ≡ true → b ≡ true → (a && b) ≡ true
and_join a b h g = rw (h, g) refl

pub or_split : (a b : Bool) → (a || b) ≡ true → (a ≡ true) ⊎ (b ≡ true)
or_split true b h = inl refl
or_split false b h = inr h

pub or_first : (a b : Bool) → a ≡ true → (a || b) ≡ true
or_first a b h = rw h refl

pub or_second : (a b : Bool) → b ≡ true → (a || b) ≡ true
or_second true b h = refl
or_second false b h = h
