-- ===== src/Relay/Duplex.antt =====
-- `_run_full_duplex` of proxy/relay.py: how a session ends, from what its two waits find.
use retail_print_guard.Base.{
  ◌≡◌, String, Bool, true, false, not, ◌&&◌, ◌||◌, Option, none, some, List, [], ◌∷◌, arith,
  is_some, if◌then◌else◌,
}
use retail_print_guard.Spool.Types.{StorageFailurePolicy}

-- `_SessionOutcome`
pub record SessionOutcome : Type 0 where
  pub complete : Bool
  pub reason : String
  pub errors : List String

-- A pump's task: running, cancelled, ended with an exception, or returned at a clean end of stream.
pub data PumpTask : Type 0 where
  running : PumpTask
  cancelled : PumpTask
  raised : String → PumpTask
  returned : PumpTask

abbrev pub is_done : PumpTask → Bool
is_done running = false
is_done _ = true

-- What holds when a wait returns: the pumps, whether the idle watcher is done, the result of the
-- failure watcher if it is done, and which pump the set of tasks gives first.
pub record Snapshot : Type 0 where
  pub client_pump : PumpTask
  pub device_pump : PumpTask
  pub idle : Bool
  pub failure : Option String
  pub device_first : Bool

-- `_first_task_error` on one task that may be done.
abbrev task_error : PumpTask → Option String
task_error running = none
task_error cancelled = some "relay pump was cancelled"
task_error (raised error) = some error
task_error returned = none

abbrev first_of_two : Option String → Option String → Option String
first_of_two none b = b
first_of_two (some a) b = some a

-- `_first_task_error`
unfoldable pub first_task_error : Snapshot → Option String
first_task_error s =
    if s.device_first
    then first_of_two (task_error s.device_pump) (task_error s.client_pump)
    else first_of_two (task_error s.client_pump) (task_error s.device_pump)

abbrev aborting : StorageFailurePolicy → Bool
aborting StorageFailurePolicy.abort = true
aborting StorageFailurePolicy.continue = false

abbrev ended : String → String → SessionOutcome
ended reason error = record { complete = false; reason = reason; errors = error ∷ [] }

abbrev clean : SessionOutcome
clean = record { complete = true; reason = "clean_bidirectional_eof"; errors = [] }

-- The tests after a wait: `tail` is the wait after one side has closed.
unfoldable pub after_wait : Bool → StorageFailurePolicy → Snapshot → Option SessionOutcome
unfolding first_task_error
after_wait tail policy s =
    if s.idle
    then some (
        if tail
        then ended "half_close_tail_idle_timeout"
            "opposite direction was idle after half-close for the configured response-tail timeout"
        else ended "session_idle_timeout"
            "no traffic in either direction before the configured timeout")
    else elim (if aborting policy then s.failure else none) [
      | some error ↦ some (ended "storage_failure" error)
      | none ↦ elim (first_task_error s) [
        | some error ↦ some (ended "transport_error" error)
        | none ↦ none
      ]
    ]

-- The whole body, on what the first wait finds and, if a pump is left, the second.
unfoldable pub run_full_duplex : StorageFailurePolicy → Snapshot → Snapshot → SessionOutcome
unfolding after_wait
run_full_duplex policy first second = elim (after_wait false policy first) [
  | some outcome ↦ outcome
  | none ↦
      if is_done first.client_pump && is_done first.device_pump
      then clean
      else elim (after_wait true policy second) [ some outcome ↦ outcome | none ↦ clean ]
]

-- `asyncio.wait` returns when one of the watched tasks is done.
abbrev pub Woken : StorageFailurePolicy → Snapshot → Type 0
Woken policy s =
    (s.idle
      || is_done s.client_pump
      || is_done s.device_pump
      || (aborting policy && is_some s.failure))
    ≡ true

-- The second wait is for the pumps that the first has left running, and what is done stays as it is.
pub record Follows (policy : StorageFailurePolicy) (first second : Snapshot) : Type 0 where
  pub client_kept : is_done first.client_pump ≡ true → second.client_pump ≡ first.client_pump
  pub device_kept : is_done first.device_pump ≡ true → second.device_pump ≡ first.device_pump
  pub woken :
      (second.idle
        || (not (is_done first.client_pump) && is_done second.client_pump)
        || (not (is_done first.device_pump) && is_done second.device_pump)
        || (aborting policy && is_some second.failure))
      ≡ true

-- A session is reported complete only if both pumps have returned at a clean end of stream. (Each
-- wait has returned because a watched task was done.)
pub complete_means_both_ended :
    (policy : StorageFailurePolicy) (first second : Snapshot)
    → Woken policy first
    → Follows policy first second
    → (run_full_duplex policy first second).complete ≡ true
    → (second.client_pump ≡ returned) × (second.device_pump ≡ returned)
unfolding run_full_duplex
complete_means_both_ended policy first second w f h = (ground arith, ground arith)
