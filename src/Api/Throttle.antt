-- ===== src/Api/Throttle.antt =====
-- LoginThrottle of api/auth.py. Times are numbers of one clock, `monotonic`; a call reads it before it gets
-- the lock, so that it may be earlier than events of calls that got the lock first. The SHA-256 of a
-- text is the argument `digest`.
pub mod Laws
pub mod Counted
use Prim.Native.String.{◌++◌ as ◌+++◌}
use retail_print_guard.Base.{
  ℕ, zero, suc, ◌+◌, ◌-◌, ◌*◌, String, Bool, true, false, Option, none, some, List, [], ◌∷◌, ◌++◌,
  if◌then◌else◌, str_eq, ltb, leb, length, max,
}
use retail_print_guard.Base.Dict.{Dict, lookup, erase}

-- `digest` hashes a text; `casefold` is Unicode's.
pub record Platform : Type 0 where
  pub digest : String → String
  pub casefold : String → String

pub record Limits : Type 0 where
  pub limit : ℕ
  pub window : ℕ
  pub delay : ℕ
  pub maximum_buckets : ℕ

-- The buckets, the one that was least recently used first.
abbrev pub Events : Type 0
Events = Dict (List ℕ)

-- `__init__`, where `none` is the ValueError.
abbrev pub start_throttle : Limits → Option Events
start_throttle limits = if ltb limits.maximum_buckets 2 then none else some []

-- `_keys`: the address's, and the account's.
abbrev pub keys_of : Platform → String → String → String × String
keys_of p client_ip username =
    (p.digest ("ip\0" +++ client_ip), p.digest ("account\0" +++ p.casefold username))

-- A call: `retry_after`, `failure` or `success`, at a time and for the keys of a client and a name.
pub data Action : Type 0 where
  asks : (now : ℕ) (keys : String × String) → Action
  fails : (now : ℕ) (keys : String × String) → Action
  succeeds : (keys : String × String) → Action

module _ (limits : Limits) where
  open limits use {limit, window, delay, maximum_buckets}

  -- The loop of `popitem(last=False)`, as often as there are entries at most.
  abbrev pub evict : Events → Events
  evict [] = []
  evict (e ∷ events) =
      let rest = evict events in
      if leb maximum_buckets (length (e ∷ events)) then rest else e ∷ events

  -- `_bucket`: the events, with the bucket at their end, and the bucket.
  unfoldable pub bucket_of : String → Events → Events × List ℕ
  unfolding lookup erase
  bucket_of key events = elim (lookup key events) [
    | none ↦ (evict events ++ ((key, []) ∷ []), [])
    | some bucket ↦ (erase key events ++ ((key, bucket) ∷ []), bucket)
  ]

  -- The bucket, which `bucket_of` has put at the end, is changed in place.
  abbrev pub set_last_bucket : List ℕ → Events → Events
  set_last_bucket bucket [] = []
  set_last_bucket bucket ((key, old) ∷ []) = (key, bucket) ∷ []
  set_last_bucket bucket ((key, old) ∷ e ∷ events) =
      (key, old) ∷ set_last_bucket bucket (e ∷ events)

  -- `while events and now - events[0] > self._window: events.popleft()`; the window is no less than 0,
  -- so that a difference below 0 counts as 0.
  abbrev pub expire : ℕ → List ℕ → List ℕ
  expire now [] = []
  expire now (t ∷ times) =
      let rest = expire now times in if ltb window (now - t) then rest else t ∷ times

  -- `max(result, delay, window - (now - events[0]))`, with the sum first, since `now` may be the earlier
  -- time; below 0 the delay is the greater one. It is read where the deque has `limit` events; with a limit
  -- of 0 it may be empty, and reading its first event is an IndexError.
  abbrev wait_for : ℕ → ℕ → List ℕ → Option ℕ
  wait_for now result [] = if leb limit 0 then none else some result
  wait_for now result (t ∷ times) =
      if leb limit (length (t ∷ times))
      then some (max (max result delay) ((window + t) - now))
      else some result

  -- One round of the loop of `retry_after`.
  abbrev pub check_key : ℕ → String → ℕ → Events → Events × Option ℕ
  check_key now key result events =
      let (moved, bucket) = bucket_of key events in
      let kept = expire now bucket in (set_last_bucket kept moved, wait_for now result kept)

  abbrev pub check_next : ℕ → String → Events × Option ℕ → Events × Option ℕ
  check_next now key (events, none) = (events, none)
  check_next now key (events, some result) = check_key now key result events

  -- `retry_after`
  unfoldable pub retry_after : ℕ → String × String → Events → Events × Option ℕ
  unfolding bucket_of
  retry_after now keys events = check_next now keys.1 (check_key now keys.0 0 events)

  -- `deque.append`, of at most `2 * limit` events.
  abbrev pub drop_to : ℕ → List ℕ → List ℕ
  drop_to most [] = []
  drop_to most (t ∷ times) =
      let rest = drop_to most times in if ltb most (length (t ∷ times)) then rest else t ∷ times

  abbrev pub push : ℕ → List ℕ → List ℕ
  push now bucket = drop_to (limit * 2) (bucket ++ (now ∷ []))

  abbrev pub record_failure : ℕ → String → Events → Events
  record_failure now key events =
      let (moved, bucket) = bucket_of key events in set_last_bucket (push now bucket) moved

  -- `failure`
  unfoldable pub failure : ℕ → String × String → Events → Events
  unfolding bucket_of
  failure now keys events = record_failure now keys.1 (record_failure now keys.0 events)

  -- `success`
  unfoldable pub success : String × String → Events → Events
  unfolding erase
  success keys events = erase keys.1 events

  unfoldable pub act : Action → Events → Events
  unfolding retry_after failure success
  act (asks now keys) events = (retry_after now keys events).0
  act (fails now keys) events = failure now keys events
  act (succeeds keys) events = success keys events

  -- The calls in the order in which they get the lock.
  abbrev pub run : List Action → Events → Events
  run [] events = events
  run (action ∷ actions) events = run actions (act action events)
