-- ===== src/Correlation/Forest/Roots.antt =====
-- The paths to the roots in `parent` of correlation/engine.py, and what halving and joining do to
-- them.
use retail_print_guard.Base.{
  ℕ, zero, suc, ◌≤◌, ◌<◌, String, false, some, ◌≡◌, refl, sym, ap, ◌∙◌, subst, inl, inr, ◌⊎◌,
  Bool-cases, str_eq, str_eq_iff, str_eq_refl, arith,
}
use retail_print_guard.Base.Dict.{Dict, lookup, insert, lookup-insert}
use retail_print_guard.Correlation.Forest.{find}

-- `n` steps lead from `x` to the root `r`.
abbrev pub RootAt : Dict String → ℕ → String → String → Type 0
RootAt parent zero x r = (lookup x parent ≡ some x) × (x ≡ r)
RootAt parent (suc n) x r =
    (y : String) × ((lookup x parent ≡ some y) × ((str_eq y x ≡ false) × RootAt parent n y r))

-- Every path of the first leads to the same root in the second, in no more steps.
abbrev pub Shortens : Dict String → Dict String → Type 0
Shortens before after =
    (n : ℕ) (x r : String) → RootAt before n x r → (m : ℕ) × ((m ≤ n) × RootAt after m x r)

pub Shortens-refl : (p : Dict String) → Shortens p p
Shortens-refl p n x r h = (n, (omega arith, h))

pub Shortens-trans : (p q s : Dict String) → Shortens p q → Shortens q s → Shortens p s
Shortens-trans p q s h k n x r path =
    let (m, (le, path')) = h n x r path in
    let (m', (le', path'')) = k m x r path' in (m', (omega arith, path''))

pub Text-cases : (a b : String) → (a ≡ b) ⊎ (str_eq a b ≡ false)
Text-cases a b = elim (Bool-cases (str_eq a b)) [
  | inl e ↦ inl ((str_eq_iff a b).0 e)
  | inr e ↦ inr e
]

same_parent : (p : Dict String) (x y z : String) → lookup x p ≡ some y → lookup x p ≡ some z → y ≡ z
same_parent p x y z h k = cc (h, k)

not_self : (x : String) → str_eq x x ≡ false → ⊥
not_self x h = cc (h, str_eq_refl x)

pub depth_unique :
    (p : Dict String) (n m : ℕ) (x r s : String)
    → RootAt p n x r
    → RootAt p m x s
    → (n ≡ m) × (r ≡ s)
depth_unique p zero zero x r s h k = (refl, sym h.1 ∙ k.1)
depth_unique p zero (suc m) x r s h k =
    let (y, (up, (differs, path))) = k in
    elim (not_self x (subst (λ t. str_eq t x ≡ false) (same_parent p x y x up h.0) differs)) [ ]
depth_unique p (suc n) zero x r s h k =
    let (y, (up, (differs, path))) = h in
    elim (not_self x (subst (λ t. str_eq t x ≡ false) (same_parent p x y x up k.0) differs)) [ ]
depth_unique p (suc n) (suc m) x r s h k =
    let (y, (up, (differs, path))) = h in
    let (z, (up', (differs', path'))) = k in
    let (e, f) =
      depth_unique p n m z r s (subst (λ t. RootAt p n t r) (same_parent p x y z up up') path)
        path' in
    (ap suc e, f)

-- The parent of a node, with its path.
parent_of :
    (p : Dict String) (n : ℕ) (y r : String)
    → RootAt p n y r
    → (z : String) × ((m : ℕ) × ((lookup y p ≡ some z) × ((m ≤ n) × RootAt p m z r)))
parent_of p zero y r h = (y, (zero, (h.0, (omega arith, h))))
parent_of p (suc n) y r h =
    let (z, (up, (differs, path))) = h in (z, (n, (up, (omega arith, path))))

-- `parent[x] = parent[parent[x]]`
module _ (p : Dict String) (x y z : String) (up : lookup x p ≡ some y)
    (differs : str_eq y x ≡ false) (top : lookup y p ≡ some z) where
  halved_other :
      (a b : String) → str_eq x a ≡ false → lookup a p ≡ some b → lookup a (insert x z p) ≡ some b
  halved_other a b other h = rw (lookup-insert x a z p, other) h

  halved_here : lookup x (insert x z p) ≡ some z
  halved_here = rw (lookup-insert x x z p, str_eq_refl x) refl

  not_back :
      (n m : ℕ) (a r : String)
      → m ≤ n
      → x ≡ a
      → RootAt p (suc n) a r
      → RootAt p m z r
      → str_eq z x ≡ false
  not_back n m a r le e h k = elim (Text-cases z x) [
    | inl back ↦
        let same =
          (depth_unique p (suc n) m a r r h (subst (λ t. RootAt p m t r) (back ∙ e) k)).0 in
        absurd (omega arith)
    | inr apart ↦ apart
  ]

  halving :
      (k n : ℕ) (a r : String)
      → n ≤ k
      → RootAt p n a r
      → (m : ℕ) × ((m ≤ n) × RootAt (insert x z p) m a r)
  halving k zero a r le h = elim (Text-cases x a) [
    | inl e ↦
        elim (not_self x (
          subst (λ t. str_eq t x ≡ false)
            (same_parent p x y x up (subst (λ t. lookup t p ≡ some t) (sym e) h.0)) differs)) [ ]
    | inr other ↦ (zero, (omega arith, (halved_other a a other h.0, h.1)))
  ]
  halving zero (suc n) a r le h = absurd (omega arith)
  halving (suc k) (suc n) a r le h = elim (Text-cases x a) [
    | inl e ↦
        let (b, (up', (differs', path))) = h in
        let (z', (m, (top', (le', path')))) = parent_of p n b r path in
        let same_up = same_parent p x y b up (subst (λ t. lookup t p ≡ some b) (sym e) up') in
        let same_top =
          same_parent p y z z' top (subst (λ t. lookup t p ≡ some z') (sym same_up) top') in
        let path_z = subst (λ t. RootAt p m t r) (sym same_top) path' in
        let (m', (le'', path'')) = halving k m z r (omega arith) path_z in
        (
          suc m',
          (
            omega arith,
            subst (λ t. RootAt (insert x z p) (suc m') t r) e
                (z, (halved_here, (not_back n m a r le' e h path_z, path''))),
          ),
        )
    | inr other ↦
        let (b, (up', (differs', path))) = h in
        let (m, (le', path')) = halving k n b r (omega arith) path in
        (suc m, (omega arith, (b, (halved_other a b other up', (differs', path')))))
  ]

-- `find` returns the root of the value when its fuel is more than the steps to it.
pub find-RootAt :
    (fuel n : ℕ) (x r : String) (p : Dict String)
    → n < fuel
    → RootAt p n x r
    → (q : Dict String) × ((find fuel x p ≡ some (r, q)) × Shortens p q)
unfolding find
find-RootAt zero n x r p lt h = absurd (omega arith)
find-RootAt (suc fuel) zero x r p lt h =
    (p, (rw (find, h.0, str_eq_refl x) (ap (λ t. some (t, p)) h.1), Shortens-refl p))
find-RootAt (suc fuel) (suc n) x r p lt h =
    let (y, (up, (differs, path))) = h in
    let (z, (m, (top, (le, path')))) = parent_of p n y r path in
    let halves : Shortens p (insert x z p) =
      λ i a s g. halving p x y z up differs top i i a s (omega arith) g in
    let (m', (le', path'')) = halves m z r path' in
    let (q, (runs, shorter)) = find-RootAt fuel m' z r (insert x z p) (omega arith) path'' in
    (q, (rw (find, up, differs, top) runs, Shortens-trans p (insert x z p) q halves shorter))
