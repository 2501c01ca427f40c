-- ===== src/Relay/Admission/Exclusion.antt =====
-- No two connections are relayed to one target at a time, and no more than the limit at all.
use retail_print_guard.Base.{
  ℕ, ◌+◌, ◌≤◌, ◌≡◌, refl, ap, ◌∙◌, true, false, Option, some, List, [], ◌∷◌, any_of, arith, length,
  String, str_eq_iff, ◌==◌, Bool-cases, Option-cases, inl, inr,
}
use retail_print_guard.Relay.Admission.{
  Target, target_eq, Addresses, DeviceConfig, Admission, admit, Relayed, Handlers, unlock, arrive,
  target_of, remove, finish, leave, Reach, start, arrives, finishes, leaves,
}

target_eq_sound : (t u : Target) → target_eq t u ≡ true → t ≡ u
target_eq_sound (a, p) (b, q) h = ground (arith, str_eq_iff a b)

target_eq_refl : (t : Target) → target_eq t t ≡ true
target_eq_refl (a, p) = ground (arith, str_eq_iff a a)

target_eq_comm : (t u : Target) → target_eq t u ≡ target_eq u t
target_eq_comm (a, p) (b, q) = ground (arith, str_eq_iff a b, str_eq_iff b a)

module _ (a : Addresses) where
  abbrev targets : List (Relayed a) → List Target
  targets [] = []
  targets (r ∷ rs) = r.target ∷ targets rs

  -- No target stands twice.
  abbrev pub Distinct : List Target → Type 0
  Distinct [] = Unit
  Distinct (t ∷ ts) = (any_of (target_eq t) ts ≡ false) × Distinct ts

  pub record IsExclusive (max_connections : ℕ) (h : Handlers a) : Type 0 where
    pub distinct : Distinct (targets h.relaying)
    pub locks : h.locked ≡ targets h.relaying
    pub counted : h.active ≡ h.leaving + length h.relaying
    pub limited : length h.relaying ≤ max_connections

  some-injective_target : {t u : Target} → some t ≡ some u → t ≡ u
  some-injective_target h = cc

  -- A target that is not among those of some connections is none of them.
  unequal :
      (n : ℕ) (rs : List (Relayed a)) (u : Target) {t : Target}
      → target_of a n rs ≡ some t
      → any_of (target_eq u) (targets rs) ≡ false
      → target_eq t u ≡ false
  unequal n [] u e h = cc
  unequal n (r ∷ rs) u {t} e h = elim (Bool-cases (r.number == n)) [
    | inl this ↦
        let same : r.target ≡ t = some-injective_target (rw this at e) in
        rw (← same) (target_eq_comm r.target u ∙ ground arith)
    | inr other ↦ unequal n rs u (rw other at e) (ground arith)
  ]

  remove_locks :
      (n : ℕ) (rs : List (Relayed a)) {t : Target}
      → target_of a n rs ≡ some t
      → Distinct (targets rs)
      → (unlock a t (targets rs) ≡ targets (remove a n rs))
        × (length rs ≡ length (remove a n rs) + 1)
  remove_locks n [] e h = cc
  remove_locks n (r ∷ rs) {t} e h = elim (Bool-cases (r.number == n)) [
    | inl this ↦
        let same : r.target ≡ t = some-injective_target (rw this at e) in
        rw (this, ← same) (rw (target_eq_refl r.target) (refl, omega arith))
    | inr other ↦
        let found : target_of a n rs ≡ some t = rw other at e in
        let (locks, count) = remove_locks n rs found h.1 in
        rw (other, unequal n rs r.target found h.0) (ap (λ ts. r.target ∷ ts) locks, omega arith)
  ]

  any_of-remove :
      (t : Target) (n : ℕ) (rs : List (Relayed a))
      → any_of (target_eq t) (targets rs) ≡ false
      → any_of (target_eq t) (targets (remove a n rs)) ≡ false
  any_of-remove t n [] h = refl
  any_of-remove t n (r ∷ rs) h = ground (arith, any_of-remove t n rs)

  Distinct-remove :
      (n : ℕ) (rs : List (Relayed a)) → Distinct (targets rs) → Distinct (targets (remove a n rs))
  Distinct-remove n [] h = tt
  Distinct-remove n (r ∷ rs) h = elim (Bool-cases (r.number == n)) [
    | inl this ↦ rw this h.1
    | inr other ↦ rw other (any_of-remove r.target n rs h.0, Distinct-remove n rs h.1)
  ]

  -- A connection that is relayed is within the limit, and its target is free.
  admit_relayed :
      (m active : ℕ) (locked : List Target) (device : DeviceConfig a) (peer : Option String)
      → admit a m active locked device peer ≡ Admission.relayed
      → (active ≤ m) × (any_of (target_eq device.target) locked ≡ false)
  unfolding admit
  admit_relayed m active locked device peer e = (ground arith, ground arith)

  arrive-IsExclusive :
      (m : ℕ) (device : DeviceConfig a) (peer : Option String) (number : ℕ) (h : Handlers a)
      → IsExclusive m h
      → IsExclusive m (arrive a m device peer number h)
  unfolding arrive
  arrive-IsExclusive m device peer number h x =
      on_answer (admit a m (h.active + 1) h.locked device peer) refl
    where
      turned_away : IsExclusive m (record h { active = h.active + 1; leaving = h.leaving + 1 })
      turned_away = record {
        distinct = x.distinct;
        locks = x.locks;
        counted = omega (arith, x.counted);
        limited = x.limited;
      }

      on_answer :
          (r : Admission)
          → admit a m (h.active + 1) h.locked device peer ≡ r
          → IsExclusive m (arrive a m device peer number h)
      on_answer Admission.over_limit e = rw (e, arrive) turned_away
      on_answer Admission.acl_rejected e = rw (e, arrive) turned_away
      on_answer Admission.target_busy e = rw (e, arrive) turned_away
      on_answer Admission.relayed e =
          let (room, free) = admit_relayed m (h.active + 1) h.locked device peer e in
          rw (e, arrive)
            (record {
              distinct = (rw x.locks at free, x.distinct);
              locks = ap (λ ts. device.target ∷ ts) x.locks;
              counted = omega (arith, x.counted);
              limited = omega (arith, x.counted, room);
            })

  finish-IsExclusive : (m n : ℕ) (h : Handlers a) → IsExclusive m h → IsExclusive m (finish a n h)
  unfolding finish
  finish-IsExclusive m n h x = elim (Option-cases (target_of a n h.relaying)) [
    | inl unknown ↦ rw (unknown, finish) x
    | inr (t, known) ↦
        let (locks, count) = remove_locks n h.relaying known x.distinct in
        rw (known, finish)
          (record {
            distinct = Distinct-remove n h.relaying x.distinct;
            locks = rw x.locks locks;
            counted = omega (arith, x.counted, count);
            limited = omega (arith, x.limited, count);
          })
  ]

  leave-IsExclusive : (m : ℕ) (h : Handlers a) → IsExclusive m h → IsExclusive m (leave a h)
  unfolding leave
  leave-IsExclusive m h x = record {
    distinct = ground arith;
    locks = ground arith;
    counted = ground arith;
    limited = ground arith;
  }

  -- At every moment that a service reaches, no two connections are relayed to one target, the locks
  -- that are held are those of the relayed connections, every active handler is relaying or waits
  -- for its connection to close, and no more connections are relayed than the limit allows.
  pub Reach-IsExclusive : {m : ℕ} {h : Handlers a} → Reach a m h → IsExclusive m h
  Reach-IsExclusive start = record {
    distinct = tt;
    locks = refl;
    counted = omega arith;
    limited = omega arith;
  }
  Reach-IsExclusive (arrives device peer number {h} r) =
      arrive-IsExclusive _ device peer number h (Reach-IsExclusive r)
  Reach-IsExclusive (finishes n {h} r) = finish-IsExclusive _ n h (Reach-IsExclusive r)
  Reach-IsExclusive (leaves {h} r) = leave-IsExclusive _ h (Reach-IsExclusive r)
