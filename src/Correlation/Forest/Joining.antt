-- ===== src/Correlation/Forest/Joining.antt =====
-- What joining two roots of `parent` in correlation/engine.py does to the paths.
use retail_print_guard.Base.{
  ℕ, zero, suc, ◌≤◌, String, false, some, ◌≡◌, refl, sym, ◌∙◌, subst, inl, inr, str_eq, str_eq_iff,
  if◌then◌else◌, arith,
}
use retail_print_guard.Base.Dict.{Dict, lookup, insert, lookup-insert}
use retail_print_guard.Correlation.Forest.Roots.{RootAt, Text-cases}

-- A path ends in a root.
pub root-IsRoot : (p : Dict String) (n : ℕ) (x r : String) → RootAt p n x r → lookup r p ≡ some r
root-IsRoot p zero x r h = subst (λ t. lookup t p ≡ some t) h.1 h.0
root-IsRoot p (suc n) x r h = let (y, (up, (differs, path))) = h in root-IsRoot p n y r path

-- `parent[second] = first`
module _ (p : Dict String) (first second : String) (root : lookup first p ≡ some first)
    (gone : lookup second p ≡ some second) (two : str_eq first second ≡ false) where
  abbrev pub moved : String → String
  moved s = if str_eq second s then first else s

  kept_parent :
      (a b : String)
      → str_eq second a ≡ false
      → lookup a p ≡ some b
      → lookup a (insert second first p) ≡ some b
  kept_parent a b other h = rw (lookup-insert second a first p, other) h

  pub turned : str_eq second first ≡ false
  turned = ground (arith, str_eq_iff first second, str_eq_iff second first, two)

  pub moved_here : (s : String) → second ≡ s → moved s ≡ first
  moved_here s e = rw ((str_eq_iff second s).1 e) refl

  pub moved_other : (s : String) → str_eq second s ≡ false → moved s ≡ s
  moved_other s other = rw other refl

  not_gone : (a y : String) → lookup a p ≡ some y → str_eq y a ≡ false → str_eq second a ≡ false
  not_gone a y up differs = elim (Text-cases second a) [
    | inr other ↦ other
    | inl e ↦ cc (subst (λ t. lookup t p ≡ some t) e gone, up, differs)
  ]

  pub joining :
      (n : ℕ) (a s : String)
      → RootAt p n a s
      → (m : ℕ) × ((m ≤ suc n) × RootAt (insert second first p) m a (moved s))
  joining zero a s h = elim (Text-cases second a) [
    | inl e ↦ (
      1,
      (
        omega arith,
        subst (λ t. RootAt (insert second first p) 1 a t) (sym (moved_here s (e ∙ h.1)))
            (
              first,
              (
                rw (lookup-insert second a first p, (str_eq_iff second a).1 e) refl,
                (
                  subst (λ t. str_eq first t ≡ false) e two,
                  (kept_parent first first turned root, refl),
                ),
              ),
            ),
      ),
    )
    | inr other ↦ (
      0,
      (
        omega arith,
        subst (λ t. RootAt (insert second first p) 0 a t)
            (sym (moved_other s (subst (λ t. str_eq second t ≡ false) h.1 other)))
            (kept_parent a a other h.0, h.1),
      ),
    )
  ]
  joining (suc n) a s h =
      let (y, (up, (differs, path))) = h in
      let (m, (le, path')) = joining n y s path in
      (suc m, (omega arith, (y, (kept_parent a y (not_gone a y up differs) up, (differs, path')))))
