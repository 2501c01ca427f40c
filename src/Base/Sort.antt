-- ===== src/Base/Sort.antt =====
-- `sorted`, and sets of texts, as lists.
use Prim.Native.Nat.{Ordering}
use Prim.Native.String.{String, compare}
use mathlib.Core.Bool.{Bool, true, false, not}
use mathlib.Core.List.{List, [], ◌∷◌}
use native.Mathlib.Omega.{arith}
use retail_print_guard.Base.Tests.{if◌then◌else◌, str_eq}
use retail_print_guard.Base.Lists.{All, any_of, keep}

-- A stable sort by a test that says that the first is not behind the second.
module _ {ℓ} {A : Type ℓ} (not_after : A → A → Bool) where
  abbrev pub insert_by : A → List A → List A
  insert_by a [] = a ∷ []
  insert_by a (b ∷ bs) = let rest = insert_by a bs in if not_after a b then a ∷ b ∷ bs else b ∷ rest

  abbrev pub sort_by : List A → List A
  sort_by [] = []
  sort_by (a ∷ rest) = insert_by a (sort_by rest)

  pub All-insert_by {κ} :
      (P : A → Type κ) (a : A) (bs : List A) → P a → All P bs → All P (insert_by a bs)
  All-insert_by P a [] h hs = (h, tt)
  All-insert_by P a (b ∷ bs) h hs = ground (arith, All-insert_by P a bs h hs.1)

  pub All-sort_by {κ} : (P : A → Type κ) (xs : List A) → All P xs → All P (sort_by xs)
  All-sort_by P [] h = tt
  All-sort_by P (x ∷ xs) h = All-insert_by P x (sort_by xs) h.0 (All-sort_by P xs h.1)

-- The order of texts by their characters: the first is not behind the second.
abbrev pub text_le : String → String → Bool
text_le a b = elim (compare a b) [ Ordering.gt ↦ false | _ ↦ true ]

abbrev pub member : String → List String → Bool
member s = any_of (str_eq s)

-- The texts of a list, each once.
abbrev pub nub : List String → List String
nub [] = []
nub (x ∷ xs) = x ∷ keep (λ y. not (str_eq x y)) (nub xs)

-- `a & b`
abbrev pub common : List String → List String → List String
common xs ys = keep (λ x. member x ys) xs

-- `sorted(set(xs))`
abbrev pub sorted_set : List String → List String
sorted_set xs = sort_by text_le (nub xs)
