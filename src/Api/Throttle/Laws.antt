-- ===== src/Api/Throttle/Laws.antt =====
-- The bounds of LoginThrottle in api/auth.py.
use retail_print_guard.Base.{
  ℕ, suc, ◌*◌, ◌≤◌, ◌<◌, String, false, Option, none, some, List, [], ◌∷◌, ◌++◌, ◌≡◌, refl, ap, inl,
  inr, subst, str_eq, ltb, length, length-append, All, All-append, arith, Bool-cases, Option-cases,
  sym, ◌∙◌,
}
use retail_print_guard.Base.Dict.{lookup, erase}
use retail_print_guard.Api.Throttle.{
  Limits, Events, evict, bucket_of, set_last_bucket, expire, check_key, check_next, drop_to,
  record_failure, Action, asks, fails, succeeds, act, run, start_throttle,
}

some_injective : {A : Type 0} {a b : A} → some a ≡ some b → a ≡ b
some_injective h = cc h

module _ (limits : Limits) where
  open limits use {limit, maximum_buckets}

  abbrev Small : String × List ℕ → Type 0
  Small entry = length entry.1 ≤ limit * 2

  -- There are at most as many buckets as allowed, each of at most twice the limit.
  pub record IsBounded (events : Events) : Type 0 where
    pub few : length events ≤ maximum_buckets
    pub small : All Small events

  length-evict :
      (events : Events) → 1 ≤ maximum_buckets → length (evict limits events) < maximum_buckets
  length-evict [] h = omega arith
  length-evict (e ∷ events) h = ground (arith, length-evict events h)

  All-evict : (events : Events) → All Small events → All Small (evict limits events)
  All-evict [] h = tt
  All-evict (e ∷ events) h = ground (arith, All-evict events h.1)

  length-erase_le : (key : String) (events : Events) → length (erase key events) ≤ length events
  unfolding erase
  length-erase_le key [] = omega arith
  length-erase_le key (e ∷ events) = ground (arith, length-erase_le key events)

  length-erase :
      (key : String) (bucket : List ℕ) (events : Events)
      → lookup key events ≡ some bucket
      → length (erase key events) < length events
  unfolding erase lookup
  length-erase key bucket [] h = ground (arith, h)
  length-erase key bucket (e ∷ events) h = elim (Bool-cases (str_eq e.0 key)) [
    | inl g ↦ rw g (omega (arith, length-erase_le key events))
    | inr g ↦ rw g (omega (arith, length-erase key bucket events (sym (rw g refl) ∙ h)))
  ]

  All-erase : (key : String) (events : Events) → All Small events → All Small (erase key events)
  unfolding erase
  All-erase key [] h = tt
  All-erase key (e ∷ events) h = ground (arith, All-erase key events h.1)

  lookup-Small :
      (key : String) (bucket : List ℕ) (events : Events)
      → lookup key events ≡ some bucket
      → All Small events
      → length bucket ≤ limit * 2
  unfolding lookup
  lookup-Small key bucket [] h hs = ground (arith, h)
  lookup-Small key bucket (e ∷ events) h hs = elim (Bool-cases (str_eq e.0 key)) [
    | inl g ↦ subst (λ b. length b ≤ limit * 2) (some_injective (sym (rw g refl) ∙ h)) hs.0
    | inr g ↦ lookup-Small key bucket events (sym (rw g refl) ∙ h) hs.1
  ]

  length-set_last_bucket :
      (bucket : List ℕ) (events : Events)
      → length (set_last_bucket limits bucket events) ≡ length events
  length-set_last_bucket bucket [] = refl
  length-set_last_bucket bucket (e ∷ []) = refl
  length-set_last_bucket bucket (e ∷ f ∷ events) =
      ap suc (length-set_last_bucket bucket (f ∷ events))

  All-set_last_bucket :
      (bucket : List ℕ) (events : Events)
      → length bucket ≤ limit * 2
      → All Small events
      → All Small (set_last_bucket limits bucket events)
  All-set_last_bucket bucket [] h hs = tt
  All-set_last_bucket bucket (e ∷ []) h hs = (h, tt)
  All-set_last_bucket bucket (e ∷ f ∷ events) h hs =
      (hs.0, All-set_last_bucket bucket (f ∷ events) h hs.1)

  length-drop_to : (most : ℕ) (times : List ℕ) → length (drop_to limits most times) ≤ most
  length-drop_to most [] = omega arith
  length-drop_to most (t ∷ times) = ground (arith, length-drop_to most times)

  length-expire : (now : ℕ) (times : List ℕ) → length (expire limits now times) ≤ length times
  length-expire now [] = omega arith
  length-expire now (t ∷ times) = ground (arith, length-expire now times)

  bucket_of-IsBounded :
      (key : String) (events : Events)
      → 1 ≤ maximum_buckets
      → IsBounded events
      → IsBounded (bucket_of limits key events).0
        × (length (bucket_of limits key events).1 ≤ limit * 2)
  unfolding bucket_of
  bucket_of-IsBounded key events some_room h = elim (Option-cases (lookup key events)) [
    | inl e ↦
        rw (bucket_of, e)
          (
            record {
              few = omega (
                arith,
                length-evict events some_room,
                length-append (evict limits events) ((key, []) ∷ []),
              );
              small =
                  All-append Small (evict limits events) ((key, []) ∷ []) (All-evict events h.small)
                    (omega arith, tt);
            },
            omega arith,
          )
    | inr (bucket, e) ↦
        rw (bucket_of, e)
          (
            record {
              few = omega (
                arith,
                h.few,
                length-erase key bucket events e,
                length-append (erase key events) ((key, bucket) ∷ []),
              );
              small =
                  All-append Small (erase key events) ((key, bucket) ∷ [])
                    (All-erase key events h.small) (lookup-Small key bucket events e h.small, tt);
            },
            lookup-Small key bucket events e h.small,
          )
  ]

  set-IsBounded :
      (bucket : List ℕ) (events : Events)
      → length bucket ≤ limit * 2
      → IsBounded events
      → IsBounded (set_last_bucket limits bucket events)
  set-IsBounded bucket events le h = record {
    few = omega (arith, h.few, length-set_last_bucket bucket events);
    small = All-set_last_bucket bucket events le h.small;
  }

  check_key-IsBounded :
      (now : ℕ) (key : String) (result : ℕ) (events : Events)
      → 1 ≤ maximum_buckets
      → IsBounded events
      → IsBounded (check_key limits now key result events).0
  check_key-IsBounded now key result events room h =
      let (moved, short) = bucket_of-IsBounded key events room h in
      set-IsBounded _ _ (omega (arith, short, length-expire now (bucket_of limits key events).1))
        moved

  check_next-IsBounded :
      (now : ℕ) (key : String) (checked : Events × Option ℕ)
      → 1 ≤ maximum_buckets
      → IsBounded checked.0
      → IsBounded (check_next limits now key checked).0
  check_next-IsBounded now key (events, none) room h = h
  check_next-IsBounded now key (events, some result) room h =
      check_key-IsBounded now key result events room h

  record_failure-IsBounded :
      (now : ℕ) (key : String) (events : Events)
      → 1 ≤ maximum_buckets
      → IsBounded events
      → IsBounded (record_failure limits now key events)
  record_failure-IsBounded now key events room h =
      let (moved, short) = bucket_of-IsBounded key events room h in
      set-IsBounded _ _ (length-drop_to (limit * 2) ((bucket_of limits key events).1 ++ (now ∷ [])))
        moved

  act-IsBounded :
      (action : Action) (events : Events)
      → 1 ≤ maximum_buckets
      → IsBounded events
      → IsBounded (act limits action events)
  unfolding act
  act-IsBounded (asks now keys) events room h =
      check_next-IsBounded now keys.1 _ room (check_key-IsBounded now keys.0 0 events room h)
  act-IsBounded (fails now keys) events room h =
      record_failure-IsBounded now keys.1 _ room (record_failure-IsBounded now keys.0 events room h)
  act-IsBounded (succeeds keys) events room h = record {
    few = omega (arith, h.few, length-erase_le keys.1 events);
    small = All-erase keys.1 events h.small;
  }

  run-IsBounded :
      (actions : List Action) (events : Events)
      → 1 ≤ maximum_buckets
      → IsBounded events
      → IsBounded (run limits actions events)
  run-IsBounded [] events room h = h
  run-IsBounded (action ∷ actions) events room h =
      run-IsBounded actions (act limits action events) room (act-IsBounded action events room h)

  start_throttle-accepts : ltb maximum_buckets 2 ≡ false → start_throttle limits ≡ some []
  start_throttle-accepts e = rw (start_throttle, e) refl

  -- A throttle that its constructor accepts holds at most as many buckets as it was given, each of at most
  -- twice the limit of events, after any calls of `retry_after`, `failure` and `success`.
  pub throttle-IsBounded :
      (actions : List Action) (events : Events)
      → start_throttle limits ≡ some events
      → IsBounded (run limits actions events)
  throttle-IsBounded actions events h = elim (Bool-cases (ltb maximum_buckets 2)) [
    | inl e ↦ ground (arith, e, h)
    | inr e ↦ run-IsBounded actions events (ground (arith, e)) (
        subst IsBounded (some_injective (sym (start_throttle-accepts e) ∙ h))
          record { few = omega arith; small = tt })
  ]
