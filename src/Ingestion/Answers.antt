-- ===== src/Ingestion/Answers.antt =====
-- Case distinctions on the answers that the worker of ingestion/worker.py gets, and predicates of
-- what is returned.
use retail_print_guard.Base.{
  ◌≢◌, ℕ, zero, suc, true, Option, none, some, ◌≡◌, refl, inl, inr, ◌⊎◌, arith, String, leb,
}
use retail_print_guard.Ingestion.Types.{IngestionRepository, StoreAnswer, Sourced}
use retail_print_guard.Ingestion.Worker.{◌>>=◌}

-- `store_import` answers with a disposition of its protocol, or is unavailable.
abbrev pub KeepsProtocol : IngestionRepository → Type 0
KeepsProtocol r = (x : r.Envelope) (s : r.State) → (r.store_import x s).0 ≢ StoreAnswer.unsupported

-- Something is returned, and the property holds of it.
abbrev pub Returns {ℓ} : {A : Type ℓ} → (A → Type 0) → Option A → Type 0
Returns P none = ⊥
Returns P (some a) = P a

pub Returns-map {ℓ} :
    {A : Type ℓ} (P Q : A → Type 0) (o : Option A)
    → ((a : A) → P a → Q a)
    → Returns P o
    → Returns Q o
Returns-map P Q none f h = h
Returns-map P Q (some a) f h = f a h

pub Returns-bind {ℓ κ} :
    {A : Type ℓ} {B : Type κ} (P : A → Type 0) (Q : B → Type 0) (o : Option A) (f : A → Option B)
    → ((a : A) → P a → Returns Q (f a))
    → Returns P o
    → Returns Q (o >>= f)
Returns-bind P Q none f g h = elim h [ ]
Returns-bind P Q (some a) f g h = g a h

pub predecessor : (n : ℕ) → leb 1 n ≡ true → (m : ℕ) × (suc m ≡ n)
predecessor zero h = ground (arith, h)
predecessor (suc m) h = (m, refl)

pub Sourced-cases {ℓ} :
    {A : Type ℓ} (s : Sourced A)
    → ((a : A) × (s ≡ Sourced.sourced a))
      ⊎ (((error : String) × (s ≡ Sourced.busy error))
          ⊎ ((error : String) × (s ≡ Sourced.invalid error)))
Sourced-cases (Sourced.sourced a) = inl (a, refl)
Sourced-cases (Sourced.busy error) = inr (inl (error, refl))
Sourced-cases (Sourced.invalid error) = inr (inr (error, refl))

pub StoreAnswer-cases :
    (a : StoreAnswer)
    → (a ≡ StoreAnswer.imported)
      ⊎ ((a ≡ StoreAnswer.duplicate)
          ⊎ ((a ≡ StoreAnswer.unsupported)
              ⊎ ((error : String) × (a ≡ StoreAnswer.unavailable error))))
StoreAnswer-cases StoreAnswer.imported = inl refl
StoreAnswer-cases StoreAnswer.duplicate = inr (inl refl)
StoreAnswer-cases StoreAnswer.unsupported = inr (inr (inl refl))
StoreAnswer-cases (StoreAnswer.unavailable error) = inr (inr (inr (error, refl)))

pub Returns-some {ℓ} :
    {A : Type ℓ} (P : A → Type 0) (o : Option A) → Returns P o → (a : A) × ((o ≡ some a) × P a)
Returns-some P none h = elim h [ ]
Returns-some P (some a) h = (a, (refl, h))
