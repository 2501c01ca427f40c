-- ===== src/Base/Sorted.antt =====
-- Sorting keeps the elements: as a list, under a map into lists, and as membership.
use mathlib.Core.List.{Perm, perm-append_left_iff, perm_append_comm}
use mathlib.Core.List.Perm
use mathlib.Core.Path.{◌≡◌, refl, subst, ap}
use mathlib.Core.Logic.{inl, inr}
use mathlib.Core.Bool.{Bool}
use mathlib.Core.List.{List, [], ◌∷◌, ◌++◌, map, append_assoc}
use retail_print_guard.Base.Tests.{Bool-cases}
use retail_print_guard.Base.Lists.{In, concat, In-All, All-In}
use retail_print_guard.Base.Sort.{insert_by, sort_by, All-sort_by}

module _ {ℓ} {A : Type ℓ} where
  pub under : (xs : List A) {ys zs : List A} → Perm ys zs → Perm (xs ++ ys) (xs ++ zs)
  under xs h = (perm-append_left_iff xs).1 h

  Perm-exchange : (xs ys zs : List A) → Perm (xs ++ (ys ++ zs)) (ys ++ (xs ++ zs))
  Perm-exchange xs ys zs =
      subst (λ l. Perm l (ys ++ (xs ++ zs))) (append_assoc xs ys zs)
        (subst (λ l. Perm ((xs ++ ys) ++ zs) l) (append_assoc ys xs zs)
          (Perm.append_right zs (perm_append_comm xs ys)))

module _ {ℓ κ} {A : Type ℓ} {B : Type κ} (le : B → B → Bool) (f : B → List A) where
  Perm-image-insert_by :
      (a : B) (bs : List B) → Perm (concat (map f (insert_by le a bs))) (f a ++ concat (map f bs))
  Perm-image-insert_by a [] = Perm.refl _
  Perm-image-insert_by a (b ∷ bs) = elim (Bool-cases (le a b)) [
    | inl e ↦ rw e (Perm.refl _)
    | inr e ↦ rw e (
        Perm.trans (under (f b) (Perm-image-insert_by a bs))
          (Perm-exchange (f b) (f a) (concat (map f bs))))
  ]

  pub Perm-image-sort_by : (bs : List B) → Perm (concat (map f (sort_by le bs))) (concat (map f bs))
  Perm-image-sort_by [] = Perm.refl _
  Perm-image-sort_by (b ∷ bs) =
      Perm.trans (Perm-image-insert_by b (sort_by le bs)) (under (f b) (Perm-image-sort_by bs))

concat-singles {ℓ} : {A : Type ℓ} (xs : List A) → concat (map (λ x. x ∷ []) xs) ≡ xs
concat-singles [] = refl
concat-singles (x ∷ xs) = ap (λ l. x ∷ l) (concat-singles xs)

pub Perm-sort_by {ℓ} : {A : Type ℓ} (le : A → A → Bool) (xs : List A) → Perm (sort_by le xs) xs
Perm-sort_by le xs =
    subst (λ l. Perm l xs) (concat-singles (sort_by le xs))
      (subst (λ l. Perm (concat (map (λ x. x ∷ []) (sort_by le xs))) l) (concat-singles xs)
        (Perm-image-sort_by le (λ x. x ∷ []) xs))

pub In-sort_by :
    {A : Type 0} (le : A → A → Bool) (x : A) (xs : List A) → In x (sort_by le xs) → In x xs
In-sort_by le x xs h =
    In-All (λ y. In y xs) x (sort_by le xs) (All-sort_by le (λ y. In y xs) xs (All-In xs)) h

pub Perm-concat {ℓ κ} :
    {A : Type ℓ} {B : Type κ} (f g : B → List A) (bs : List B)
    → ((b : B) → Perm (f b) (g b))
    → Perm (concat (map f bs)) (concat (map g bs))
Perm-concat f g [] h = Perm.refl _
Perm-concat f g (b ∷ bs) h =
    Perm.trans (Perm.append_right (concat (map f bs)) (h b)) (under (g b) (Perm-concat f g bs h))
