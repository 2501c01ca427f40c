-- ===== src/Tests/Logins.antt =====
-- Logins from one address under two names.
use retail_print_guard.Base.{
  ℕ, ◌+◌, ◌-◌, String, some, List, [], ◌∷◌, ◌++◌, ◌≡◌, refl, arith, length,
}
use retail_print_guard.Api.Throttle.{
  failure, success, Platform, Limits, Action, act, asks, fails, succeeds, keys_of, run, retry_after,
}
use retail_print_guard.Api.Throttle.Counted.{bucket, failure-IsCounted}
use retail_print_guard.Base.Dict.{lookup}
use retail_print_guard.Api.Throttle.Laws.{IsBounded, throttle-IsBounded}

abbrev plain : Platform
plain = record { digest = λ s. s; casefold = λ s. s }

abbrev limits : Limits
limits = record { limit = 2; window = 300; delay = 2; maximum_buckets = 3 }

abbrev ada : String × String
ada = keys_of plain "10.0.0.7" "ada"

abbrev bob : String × String
bob = keys_of plain "10.0.0.7" "bob"

abbrev calls : List Action
calls = fails 0 ada ∷ asks 5 ada ∷ fails 10 bob ∷ succeeds bob ∷ []

-- Two failures under two names block the address for what is left of the window.
blocked : (retry_after limits 20 bob (run limits calls [])).1 ≡ some 280
unfolding retry_after act
blocked = refl

throttle-IsBounded_example : IsBounded limits (run limits calls [])
throttle-IsBounded_example = throttle-IsBounded limits calls [] refl

failure-IsCounted_example :
    (dropped : List ℕ) × (kept : List ℕ) × ((bucket limits ada.0 (run limits calls [])
        ≡ dropped ++ kept)
      × (lookup ada.0 (success limits bob (failure limits 30 ada (run limits calls [])))
          ≡ some (kept ++ (30 ∷ [])))
      × (length dropped ≡ (length (bucket limits ada.0 (run limits calls [])) + 1) - 4))
failure-IsCounted_example =
    failure-IsCounted limits 30 ada bob (run limits calls []) (omega arith) (omega arith) refl refl
