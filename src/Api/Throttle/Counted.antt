-- ===== src/Api/Throttle/Counted.antt =====
-- What LoginThrottle of api/auth.py counts for an address.
use retail_print_guard.Base.{
  ℕ, ◌≤◌, ◌<◌, ◌+◌, ◌-◌, ◌*◌, String, false, none, some, List, [], ◌∷◌, ◌++◌, ◌≡◌, refl, ap, inl,
  inr, subst, str_eq, str_eq_refl, ltb, leb, length, length-append, arith, Bool-cases, Option-cases,
  sym, ◌∙◌,
}
use retail_print_guard.Base.Dict.{lookup, erase, lookup-erase}
use retail_print_guard.Api.Throttle.{
  Limits, Events, evict, bucket_of, set_last_bucket, drop_to, push, record_failure, failure,
  success,
}

abbrev Entry : Type 0
Entry = String × List ℕ

never_both : {A : Type 0} {a : A} → some a ≡ none → ⊥
never_both h = ground (arith, h)

lookup-first :
    (key : String) (bucket : List ℕ) (events rest : Events)
    → lookup key events ≡ some bucket
    → lookup key (events ++ rest) ≡ some bucket
unfolding lookup
lookup-first key bucket [] rest h = ground (arith, h)
lookup-first key bucket (e ∷ events) rest h = elim (Bool-cases (str_eq e.0 key)) [
  | inl g ↦ rw g (sym (rw g refl) ∙ h)
  | inr g ↦ rw g (lookup-first key bucket events rest (sym (rw g refl) ∙ h))
]

lookup-later :
    (key : String) (events rest : Events)
    → lookup key events ≡ none
    → lookup key (events ++ rest) ≡ lookup key rest
unfolding lookup
lookup-later key [] rest h = refl
lookup-later key (e ∷ events) rest h = elim (Bool-cases (str_eq e.0 key)) [
  | inl g ↦ absurd (never_both {a = e.1} (sym (rw g refl) ∙ h))
  | inr g ↦ rw g (lookup-later key events rest (sym (rw g refl) ∙ h))
]

lookup-single : (key : String) (bucket : List ℕ) → lookup key ((key, bucket) ∷ []) ≡ some bucket
unfolding lookup
lookup-single key bucket = rw (str_eq_refl key) refl

erased : (key : String) (events : Events) → lookup key (erase key events) ≡ none
erased key events = rw (lookup-erase key key events, str_eq_refl key) refl

module _ (limits : Limits) where
  open limits use {limit, maximum_buckets}

  set_last_bucket-append :
      (key : String) (old bucket : List ℕ) (events : Events)
      → set_last_bucket limits bucket (events ++ ((key, old) ∷ [])) ≡ events ++ ((key, bucket) ∷ [])
  set_last_bucket-append key old bucket [] = refl
  set_last_bucket-append key old bucket (e ∷ []) = refl
  set_last_bucket-append key old bucket (e ∷ f ∷ events) =
      ap (λ l. e ∷ l) (set_last_bucket-append key old bucket (f ∷ events))

  roomy : 2 ≤ maximum_buckets → leb maximum_buckets 1 ≡ false
  roomy room = ground arith

  -- Evicting never takes the last entry, where two buckets fit.
  evict-last :
      (key : String) (bucket : List ℕ) (events : Events)
      → 2 ≤ maximum_buckets
      → lookup key events ≡ none
      → lookup key (evict limits (events ++ ((key, bucket) ∷ []))) ≡ some bucket
  unfolding lookup
  evict-last key bucket [] room h = rw (roomy room) (lookup-single key bucket)
  evict-last key bucket (e ∷ events) room h = elim (Bool-cases (str_eq e.0 key)) [
    | inl g ↦ absurd (never_both {a = e.1} (sym (rw g refl) ∙ h))
    | inr g ↦
        let rest = sym (rw g refl) ∙ h in
        elim (Bool-cases (leb maximum_buckets (length (e ∷ (events ++ ((key, bucket) ∷ [])))))) [
          | inl k ↦ rw k (evict-last key bucket events room rest)
          | inr k ↦
              rw (k, g)
                (lookup-later key events ((key, bucket) ∷ []) rest ∙ lookup-single key bucket)
        ]
  ]

  -- The bucket of the key, or an empty one.
  abbrev pub bucket : String → Events → List ℕ
  bucket key events = elim (lookup key events) [ none ↦ [] | some times ↦ times ]

  -- A bucket that was asked for stands at the end, and nowhere else.
  abbrev IsLast : String → List ℕ → Events → Type 0
  IsLast key times events =
      (before : Events) × ((lookup key before ≡ none) × (events ≡ before ++ ((key, times) ∷ [])))

  All-evict-none :
      (key : String) (events : Events)
      → lookup key events ≡ none
      → lookup key (evict limits events) ≡ none
  unfolding lookup
  All-evict-none key [] h = refl
  All-evict-none key (e ∷ events) h = elim (Bool-cases (str_eq e.0 key)) [
    | inl g ↦ absurd (never_both {a = e.1} (sym (rw g refl) ∙ h))
    | inr g ↦ elim (Bool-cases (leb maximum_buckets (length (e ∷ events)))) [
      | inl k ↦ rw k (All-evict-none key events (sym (rw g refl) ∙ h))
      | inr k ↦ rw (k, g) (sym (rw g refl) ∙ h)
    ]
  ]

  bucket_of-IsLast :
      (key : String) (events : Events)
      → IsLast key (bucket key events) (bucket_of limits key events).0
        × ((bucket_of limits key events).1 ≡ bucket key events)
  unfolding bucket_of
  bucket_of-IsLast key events = elim (Option-cases (lookup key events)) [
    | inl e ↦
        rw (bucket_of, bucket, e) ((evict limits events, (All-evict-none key events e, refl)), refl)
    | inr (times, e) ↦
        rw (bucket_of, bucket, e) ((erase key events, (erased key events, refl)), refl)
  ]

  -- The bucket of another key leaves that of the last one, where two buckets fit.
  bucket_of-other :
      (key other : String) (times : List ℕ) (events : Events)
      → 2 ≤ maximum_buckets
      → str_eq other key ≡ false
      → IsLast key times events
      → lookup key (bucket_of limits other events).0 ≡ some times
  unfolding bucket_of
  bucket_of-other key other times events room apart last =
      let (before, (absent, same)) = last in
      elim (Option-cases (lookup other events)) [
        | inl e ↦
            rw (bucket_of, e)
              (lookup-first key times (evict limits events) _ (
                subst (λ l. lookup key (evict limits l) ≡ some times) (sym same)
                  (evict-last key times before room absent)))
        | inr (old, e) ↦
            rw (bucket_of, e)
              (lookup-first key times (erase other events) _ (
                rw (lookup-erase other key events, apart)
                  (subst (λ l. lookup key l ≡ some times) (sym same)
                    (lookup-later key before ((key, times) ∷ []) absent
                      ∙ lookup-single key times))))
      ]

  -- Changing the last bucket leaves those of other keys.
  lookup-set_last_bucket :
      (key other : String) (old times : List ℕ) (before : Events)
      → str_eq other key ≡ false
      → lookup key (before ++ ((other, times) ∷ [])) ≡ lookup key (before ++ ((other, old) ∷ []))
  unfolding lookup
  lookup-set_last_bucket key other old times [] apart = rw apart refl
  lookup-set_last_bucket key other old times (e ∷ before) apart =
      elim (Bool-cases (str_eq e.0 key)) [
        | inl g ↦ rw g refl
        | inr g ↦ rw g (lookup-set_last_bucket key other old times before apart)
      ]

  record_failure-IsLast :
      (now : ℕ) (key : String) (events : Events)
      → IsLast key (push limits now (bucket key events)) (record_failure limits now key events)
  record_failure-IsLast now key events =
      let ((before, (absent, same)), found) = bucket_of-IsLast key events in
      (
        before,
        (
          absent,
          ap (set_last_bucket limits (push limits now (bucket_of limits key events).1)) same
              ∙ set_last_bucket-append key (bucket key events)
                  (push limits now (bucket_of limits key events).1) before
              ∙ ap (λ times. before ++ ((key, push limits now times) ∷ [])) found,
        ),
      )

  record_failure-other :
      (now : ℕ) (key other : String) (times : List ℕ) (events : Events)
      → 2 ≤ maximum_buckets
      → str_eq other key ≡ false
      → IsLast key times events
      → lookup key (record_failure limits now other events) ≡ some times
  record_failure-other now key other times events room apart last =
      let ((before, (absent, same)), found) = bucket_of-IsLast other events in
      let next = push limits now (bucket_of limits other events).1 in
      ap (λ l. lookup key (set_last_bucket limits next l)) same
      ∙ ap (lookup key) (set_last_bucket-append other (bucket other events) next before)
      ∙ lookup-set_last_bucket key other (bucket other events) next before apart
      ∙ sym (ap (lookup key) same)
      ∙ bucket_of-other key other times events room apart last

  lookup-failure :
      (now : ℕ) (keys later : String × String) (events : Events)
      → 2 ≤ maximum_buckets
      → str_eq keys.1 keys.0 ≡ false
      → str_eq later.1 keys.0 ≡ false
      → lookup keys.0 (success limits later (failure limits now keys events))
        ≡ some (push limits now (bucket keys.0 events))
  unfolding success failure
  lookup-failure now keys later events room apart apart' =
      rw (lookup-erase later.1 keys.0 (failure limits now keys events), apart')
        (record_failure-other now keys.0 keys.1 (push limits now (bucket keys.0 events))
          (record_failure limits now keys.0 events) room apart
          (record_failure-IsLast now keys.0 events))

  -- Appending to a deque of at most `most` events drops as many of its first ones as do not fit.
  drop_to-append :
      (most now : ℕ) (times : List ℕ)
      → 1 ≤ most
      → (dropped : List ℕ) × (kept : List ℕ) × ((times ≡ dropped ++ kept)
          × (drop_to limits most (times ++ (now ∷ [])) ≡ kept ++ (now ∷ []))
          × (length dropped ≡ (length times + 1) - most))
  drop_to-append most now [] some_room =
      let fits : ltb most 1 ≡ false = ground arith in ([], [], (refl, rw fits refl, omega arith))
  drop_to-append most now (t ∷ times) some_room =
      let (dropped, kept, (same, result, count)) = drop_to-append most now times some_room in
      elim (Bool-cases (ltb most (length (t ∷ (times ++ (now ∷ [])))))) [
        | inl over ↦
            let long : most < length (t ∷ (times ++ (now ∷ []))) = ground (arith, over) in
            (
              t ∷ dropped,
              kept,
              (ap (λ l. t ∷ l) same, rw over result, omega (arith, length-append times (now ∷ []))),
            )
        | inr fits ↦
            let short : length (t ∷ (times ++ (now ∷ []))) ≤ most = ground (arith, fits) in
            ([], t ∷ times, (refl, rw fits refl, omega (arith, length-append times (now ∷ []))))
      ]

  -- Where two buckets fit and the limit is not 0, a failed login under one name is counted in the
  -- bucket of its address, and it is still counted there after a success under the same or another
  -- name from that address: the bucket then ends with the time of the failure, behind the events that
  -- were there but for the first ones, of which as many are missing as are over twice the limit. The
  -- keys of names and of the address are taken to be different.
  pub failure-IsCounted :
      (now : ℕ) (keys later : String × String) (events : Events)
      → 2 ≤ maximum_buckets
      → 1 ≤ limit
      → str_eq keys.1 keys.0 ≡ false
      → str_eq later.1 keys.0 ≡ false
      → (dropped : List ℕ) × (kept : List ℕ) × ((bucket keys.0 events ≡ dropped ++ kept)
          × (lookup keys.0 (success limits later (failure limits now keys events))
              ≡ some (kept ++ (now ∷ [])))
          × (length dropped ≡ (length (bucket keys.0 events) + 1) - limit * 2))
  failure-IsCounted now keys later events room counts apart apart' =
      let (dropped, kept, (same, result, count)) =
        drop_to-append (limit * 2) now (bucket keys.0 events) (omega (arith, counts)) in
      (
        dropped,
        kept,
        (same, lookup-failure now keys later events room apart apart' ∙ ap some result, count),
      )
