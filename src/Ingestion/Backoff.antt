-- ===== src/Ingestion/Backoff.antt =====
-- The waits between the attempts of `_store_with_retry` of ingestion/worker.py.
use retail_print_guard.Base.{
  min, ◌*◌, ◌≤◌, ◌++◌, ◌<◌, append-nil, append_assoc, All, ℕ, zero, suc, ◌+◌, ◌==◌, ==_iff, true,
  some, List, [], ◌∷◌, ◌≡◌, refl, sym, ap, inl, inr, Bool-cases, arith, ◌∙◌,
}
use retail_print_guard.Ingestion.Types.{IngestionRunReport, IngestionRepository, World, Settings}
use retail_print_guard.Ingestion.Worker.{is_valid, store_loop, store_with_retry}
use retail_print_guard.Ingestion.Answers.{
  KeepsProtocol, Returns-some, Returns, Returns-map, StoreAnswer-cases, predecessor,
}

module _ (r : IngestionRepository) (settings : Settings) where
  open r use {State, Envelope, store_import}

  -- The schedule of delays: each is twice the one before, up to the maximum.
  abbrev pub schedule : ℕ → ℕ → List ℕ
  schedule zero delay = []
  schedule (suc n) delay = delay ∷ schedule n (min settings.retry_max (delay * 2))

  schedule-bounded :
      (n delay : ℕ)
      → delay ≤ settings.retry_max
      → All (λ d. d ≤ settings.retry_max) (schedule n delay)
  schedule-bounded zero delay h = tt
  schedule-bounded (suc n) delay h =
      (h, schedule-bounded n (min settings.retry_max (delay * 2)) (omega arith))

  -- From the one world to the other the first delays of the schedule were slept, so many at most.
  record Waits (most delay : ℕ) (w w' : World r) : Type 0 where
    waits : ℕ
    few : waits ≤ most
    slept : w'.slept ≡ w.slept ++ schedule waits delay

  no_wait : (most delay : ℕ) (w w' : World r) → w'.slept ≡ w.slept → Waits most delay w w'
  no_wait most delay w w' h = record {
    waits = 0;
    few = omega arith;
    slept = h ∙ sym (append-nil w.slept);
  }

  one_more :
      (left delay : ℕ) (w w' : World r) {state : State}
      → Waits left
          (min settings.retry_max (delay * 2))
          (record { state = state; slept = w.slept ++ delay ∷ [] })
          w'
      → Waits (suc left) delay w w'
  one_more left delay w w' h = record {
    waits = suc h.waits;
    few = omega (arith, h.few);
    slept = h.slept ∙ append_assoc w.slept (delay ∷ []) _;
  }

  Waits-store_loop :
      KeepsProtocol r
      → (x : Envelope) (left attempt delay : ℕ) (report : IngestionRunReport) (w : World r)
      → attempt + left ≡ settings.retry_attempts
      → Returns
          (λ end. Waits left delay w end.1)
          (store_loop r settings x (suc left) attempt delay report w)
  unfolding store_loop
  Waits-store_loop lawful x zero attempt delay report w h =
      elim (StoreAnswer-cases (store_import x w.state).0) [
        | inl e ↦ rw (e, store_loop) (no_wait 0 delay w _ refl)
        | inr (inl e) ↦ rw (e, store_loop) (no_wait 0 delay w _ refl)
        | inr (inr (inl e)) ↦ elim (lawful x w.state e) [ ]
        | inr (inr (inr (error, e))) ↦
            rw (e, store_loop)
              (rw ((==_iff attempt settings.retry_attempts).1 (omega (arith, h)))
                (no_wait 0 delay w _ refl))
      ]
  Waits-store_loop lawful x (suc left) attempt delay report w h =
      elim (StoreAnswer-cases (store_import x w.state).0) [
        | inl e ↦ rw (e, store_loop) (no_wait (suc left) delay w _ refl)
        | inr (inl e) ↦ rw (e, store_loop) (no_wait (suc left) delay w _ refl)
        | inr (inr (inl e)) ↦ elim (lawful x w.state e) [ ]
        | inr (inr (inr (error, e))) ↦ elim (Bool-cases (attempt == settings.retry_attempts)) [
          | inl last ↦ rw (e, store_loop) (rw last (no_wait (suc left) delay w _ refl))
          | inr more ↦
              rw (e, store_loop)
                (rw more (
                  Returns-map {A = IngestionRunReport × World r} _ _ _
                    (λ end waited. one_more left delay w end.1 waited)
                    (Waits-store_loop lawful x left (suc attempt) _ report _ (omega (arith, h)))))
        ]
      ]

  -- What the waits of one envelope are: fewer than the attempts, each within the maximum, and the
  -- first ones of the schedule.
  pub record IsPatient (w w' : World r) : Type 0 where
    pub waits : ℕ
    pub few : waits < settings.retry_attempts
    pub slept : w'.slept ≡ w.slept ++ schedule waits settings.retry_initial
    pub bounded : All (λ d. d ≤ settings.retry_max) (schedule waits settings.retry_initial)

  -- With valid settings and a repository that keeps its protocol, storing an envelope returns, and
  -- has waited fewer times than the allowed attempts, with delays that double from the initial one
  -- and never exceed the maximum.
  pub store-IsPatient :
      (x : Envelope) (w : World r) (report : IngestionRunReport)
      → KeepsProtocol r
      → is_valid settings ≡ true
      → (end : IngestionRunReport × World r) × ((store_with_retry r settings x report w ≡ some end)
          × IsPatient w end.1)
  unfolding is_valid
  store-IsPatient x w report lawful valid =
      let (n, e) = predecessor settings.retry_attempts (ground (arith, valid)) in
      let (end, (returned, waited)) =
        Returns-some (λ end. Waits n settings.retry_initial w end.1)
          (store_loop r settings x (suc n) 1 settings.retry_initial report w)
          (Waits-store_loop lawful x n 1 settings.retry_initial report w (omega (arith, e))) in
      (
        end,
        (
          ap (λ m. store_loop r settings x m 1 settings.retry_initial report w) (sym e) ∙ returned,
          record {
            waits = waited.waits;
            few = omega (arith, waited.few, e);
            slept = waited.slept;
            bounded = schedule-bounded waited.waits settings.retry_initial (ground (arith, valid));
          },
        ),
      )
