-- ===== src/Relay/System/Safety/Queue.antt =====
-- What the commands in the queue will do to the writer, and what must hold of it then.
use retail_print_guard.Base.{
  ℕ, ◌≤◌, String, ◌≡◌, refl, Option, none, some, List, [], ◌∷◌, ◌++◌, is_empty, if◌then◌else◌,
}
use retail_print_guard.Spool.Types.{PerDirection, Bytes, CaptureEvent, Codec}
use retail_print_guard.Spool.Writer.{Writer}
use retail_print_guard.Spool.Session.{
  Command, open_command, event_command, close_command, stop_command,
}
use retail_print_guard.Relay.System.Ideal.{Ideal, nothing_yet, play, ideal_of}

-- Nothing was written that was not counted, and a direction whose chunks are all written has
-- exactly the bytes received.
pub record IsSafe (i : Ideal) (seen : PerDirection ℕ) (received : PerDirection Bytes) : Type 0 where
  pub client_le : i.chunks.client ≤ seen.client
  pub device_le : i.chunks.device ≤ seen.device
  pub client_bytes : i.chunks.client ≡ seen.client → i.raw.client ≡ received.client
  pub device_bytes : i.chunks.device ≡ seen.device → i.raw.device ≡ received.device

abbrev pub SafeIf : Option Ideal → PerDirection ℕ → PerDirection Bytes → Type 0
SafeIf none seen received = Unit
SafeIf (some i) seen received = IsSafe i seen received

abbrev pub play_on : CaptureEvent → Option Ideal → Option Ideal
play_on e none = none
play_on e (some i) = some (play e i)

module _ (c : Codec) where
  -- The contents of a writer that has had no error.
  abbrev pub clean : Option (Writer c) → Option Ideal
  clean none = none
  clean (some w) = if is_empty w.errors then some (ideal_of c w) else none

  abbrev pub NoClose : List (Command c) → Type 0
  NoClose [] = Unit
  NoClose (close_command id k ∷ q) = ⊥
  NoClose (_ ∷ q) = NoClose q

  module _ (id : String) where
    -- The queue of the session `id`, from a writer with the contents `o` on.
    abbrev pub Good : PerDirection ℕ → PerDirection Bytes → List (Command c) → Option Ideal → Type 0
    Good seen received [] o = SafeIf o seen received
    Good seen received (open_command d b ∷ q) o =
        (d.session_id ≡ id) × (o ≡ none) × Good seen received q (some nothing_yet)
    Good seen received (event_command j e ∷ q) o = (j ≡ id) × Good seen received q (play_on e o)
    Good seen received (close_command j k ∷ q) o =
        (j ≡ id) × SafeIf o k.summary.observed_chunks received × Good seen received q none
    Good seen received (stop_command ∷ q) o = ⊥

    pub weaken :
        (seen : PerDirection ℕ) (received : PerDirection Bytes) (q : List (Command c))
        (o : Option Ideal)
        → Good seen received q o
        → Good seen received q none
    weaken seen received [] o h = tt
    weaken seen received (open_command d b ∷ q) o h = (h.0, refl, h.2)
    weaken seen received (event_command j e ∷ q) o h =
        (h.0, weaken seen received q (play_on e o) h.1)
    weaken seen received (close_command j k ∷ q) o h = (h.0, tt, h.2)
    weaken seen received (stop_command ∷ q) o h = h

    -- More commands behind a queue with no close.
    pub extend :
        (seen seen' : PerDirection ℕ) (received received' : PerDirection Bytes)
        (es q : List (Command c)) (o : Option Ideal)
        → ((o' : Option Ideal) → SafeIf o' seen received → Good seen' received' es o')
        → NoClose q
        → Good seen received q o
        → Good seen' received' (q ++ es) o
    extend seen seen' received received' es [] o f n h = f o h
    extend seen seen' received received' es (open_command d b ∷ q) o f n h =
        (h.0, h.1, extend seen seen' received received' es q (some nothing_yet) f n h.2)
    extend seen seen' received received' es (event_command j e ∷ q) o f n h =
        (h.0, extend seen seen' received received' es q (play_on e o) f n h.1)
    extend seen seen' received received' es (close_command j k ∷ q) o f n h = absurd n
    extend seen seen' received received' es (stop_command ∷ q) o f n h = absurd h

    pub NoClose-append :
        (q : List (Command c)) (e : CaptureEvent)
        → NoClose q
        → NoClose (q ++ event_command id e ∷ [])
    NoClose-append [] e n = tt
    NoClose-append (open_command d b ∷ q) e n = NoClose-append q e n
    NoClose-append (event_command j x ∷ q) e n = NoClose-append q e n
    NoClose-append (close_command j k ∷ q) e n = n
    NoClose-append (stop_command ∷ q) e n = NoClose-append q e n
