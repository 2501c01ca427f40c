-- ===== src/Base/Lists.antt =====
-- Lists measured by native numbers, and the tests and predicates on lists that the parts share.
use mathlib.Core.Logic.{◌⊎◌, inl, inr}
use Prim.Native.Nat.{ℕ, zero, suc, ◌+◌}
use mathlib.Core.Path.{◌≡◌, refl, sym, subst}
use mathlib.Core.Bool.{Bool, true, false, ◌&&◌, ◌||◌}
use mathlib.Core.List.{List, [], ◌∷◌, ◌++◌, map}
use retail_print_guard.Base.Tests.{if◌then◌else◌, Bool-cases}
use native.Mathlib.Omega.{arith}

module _ {ℓ} {A : Type ℓ} where
  abbrev pub length : List A → ℕ
  length [] = 0
  length (x ∷ xs) = suc (length xs)

  pub length-append : (xs ys : List A) → length (xs ++ ys) ≡ length xs + length ys
  length-append [] ys = omega arith
  length-append (x ∷ xs) ys = omega (arith, length-append xs ys)

  abbrev pub is_empty : List A → Bool
  is_empty [] = true
  is_empty (x ∷ xs) = false

  abbrev pub take : ℕ → List A → List A
  take zero xs = []
  take (suc n) [] = []
  take (suc n) (x ∷ xs) = x ∷ take n xs

  -- `[x for x in xs if p(x)]`
  abbrev pub keep : (A → Bool) → List A → List A
  keep p [] = []
  keep p (x ∷ xs) = let rest = keep p xs in if p x then x ∷ rest else rest

  -- A generator inside `all(…)` and `any(…)`.
  abbrev pub all_of : (A → Bool) → List A → Bool
  all_of p [] = true
  all_of p (x ∷ xs) = p x && all_of p xs

  abbrev pub any_of : (A → Bool) → List A → Bool
  any_of p [] = false
  any_of p (x ∷ xs) = p x || any_of p xs

-- Every element has the property.
abbrev pub All {ℓ κ} : {A : Type ℓ} → (A → Type κ) → List A → Type κ
All P [] = Unit
All P (x ∷ xs) = P x × All P xs

pub All-append {ℓ κ} :
    {A : Type ℓ} (P : A → Type κ) (xs ys : List A) → All P xs → All P ys → All P (xs ++ ys)
All-append P [] ys hx hy = hy
All-append P (x ∷ xs) ys hx hy = (hx.0, All-append P xs ys hx.1 hy)

-- What is kept has the property that the list had, and passes the test.
pub All-keep {ℓ κ} :
    {A : Type ℓ} (P : A → Type κ) (p : A → Bool) (xs : List A)
    → All P xs
    → All (λ x. P x × (p x ≡ true)) (keep p xs)
All-keep P p [] h = tt
All-keep P p (x ∷ xs) h = elim (Bool-cases (p x)) [
  | inl e ↦ rw e ((h.0, e), All-keep P p xs h.1)
  | inr e ↦ rw e (All-keep P p xs h.1)
]

pub All-map {ℓ κ μ} :
    {A : Type ℓ} (P : A → Type κ) (Q : A → Type μ) (xs : List A)
    → ((x : A) → P x → Q x)
    → All P xs
    → All Q xs
All-map P Q [] f h = tt
All-map P Q (x ∷ xs) f h = (f x h.0, All-map P Q xs f h.1)

pub All-zip {ℓ κ μ ν} :
    {A : Type ℓ} (P : A → Type κ) (Q : A → Type μ) (R : A → Type ν) (xs : List A)
    → ((x : A) → P x → Q x → R x)
    → All P xs
    → All Q xs
    → All R xs
All-zip P Q R [] f h k = tt
All-zip P Q R (x ∷ xs) f h k = (f x h.0 k.0, All-zip P Q R xs f h.1 k.1)

-- The element stands somewhere in the list.
abbrev pub In : {A : Type 0} → A → List A → Type 0
In x [] = ⊥
In x (y ∷ ys) = (x ≡ y) ⊎ In x ys

pub All-In : {A : Type 0} (xs : List A) → All (λ x. In x xs) xs
All-In [] = tt
All-In (x ∷ xs) =
    (inl refl, All-map (λ y. In y xs) (λ y. In y (x ∷ xs)) xs (λ y here. inr here) (All-In xs))

pub kept {ℓ κ} :
    {A : Type ℓ} (P : A → Type κ) (test : A → Bool) (xs : List A) → All P xs → All P (keep test xs)
kept P test xs h = All-map _ P (keep test xs) (λ x g. g.0) (All-keep P test xs h)

pub All-image {ℓ κ μ ν} :
    {A : Type ℓ} {B : Type κ} (P : A → Type μ) (Q : B → Type ν) (f : A → B) (xs : List A)
    → ((x : A) → P x → Q (f x))
    → All P xs
    → All Q (map f xs)
All-image P Q f [] g h = tt
All-image P Q f (x ∷ xs) g h = (g x h.0, All-image P Q f xs g h.1)

abbrev pub concat {ℓ} : {A : Type ℓ} → List (List A) → List A
concat [] = []
concat (xs ∷ rest) = xs ++ concat rest

pub In-All {ℓ} : {A : Type 0} (P : A → Type ℓ) (x : A) (xs : List A) → All P xs → In x xs → P x
In-All P x [] h here = elim here [ ]
In-All P x (y ∷ ys) h (inl e) = subst P (sym e) h.0
In-All P x (y ∷ ys) h (inr here) = In-All P x ys h.1 here

pub either {ℓ κ} :
    {A : Type ℓ} (P : A → Type κ) (b : Bool) (x y : A) → P x → P y → P (if b then x else y)
either P true x y h g = h
either P false x y h g = g
