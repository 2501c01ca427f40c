-- ===== src/Relay/Pump.antt =====
-- `RelayService._pump` of proxy/relay.py: one round of its loop.
use retail_print_guard.Base.{
  ℕ, String, Bool, true, false, not, ◌&&◌, ◌||◌, Option, none, some, ◌++◌, str_eq, if◌then◌else◌,
  length, is_empty, is_some,
}
use retail_print_guard.Spool.Types.{
  Direction, PerDirection, at, put, Bytes, StorageFailurePolicy, Codec,
}
use retail_print_guard.Spool.Session.{Session, Observation, Manager, record_event, failure_message}
use retail_print_guard.Relay.Counters.{Counters, Position, next_data, next_eof}

-- What the network and the clock answer in one round: the bytes read (none at the end of the
-- stream), the error of forwarding them, and the times.
pub record Tick : Type 0 where
  pub payload : Bytes
  pub forward_error : Option String
  pub captured_at_utc : String
  pub captured_monotonic_ns : ℕ
  pub forwarded_at_utc : String

-- How a round ends: the loop goes on, returns, or raises.
pub data Outcome : Type 0 where
  again : Outcome
  clean_eof : Outcome
  relay_error : String → Outcome
  capture_abort : String → Outcome

-- `a or b` for texts.
abbrev or_text : Option String → String → String
or_text none b = b
or_text (some a) b = if str_eq a "" then b else a

abbrev aborts : StorageFailurePolicy → Bool
aborts StorageFailurePolicy.abort = true
aborts StorageFailurePolicy.continue = false

abbrev pub observation : Direction → String → Tick → Position → Observation
observation d kind t p = record {
  direction = d;
  direction_sequence = p.direction_sequence;
  kind = kind;
  captured_at_utc = t.captured_at_utc;
  captured_monotonic_ns = t.captured_monotonic_ns;
  offset = p.offset;
  payload = t.payload;
  forwarded = not (is_some t.forward_error);
  forwarded_at_utc = t.forwarded_at_utc;
  forward_error = t.forward_error;
  observed_sequence = some p.observed_sequence;
}

abbrev pub counted : Direction → Tick → Counters → Position × Counters
counted d t n = if is_empty t.payload then next_eof d n else next_data d (length t.payload) n

abbrev pub kind_of : Tick → String
kind_of t = if is_empty t.payload then "eof" else "data"

-- The end of the branch at the end of a stream, and of that for data.
abbrev pub outcome_of : Tick → Bool → Session → Outcome
outcome_of t accepted s =
    if is_empty t.payload
    then (if (not accepted && aborts s.policy) || is_some t.forward_error
        then capture_abort (or_text t.forward_error (failure_message s))
        else clean_eof)
    else if is_some t.forward_error
    then relay_error (or_text t.forward_error "forwarding failed")
    else if not accepted && aborts s.policy
    then capture_abort (failure_message s)
    else again

module _ (c : Codec) where
  -- The states that a round changes. `received` is what the sockets have handed over, `delivered`
  -- what was written to the other side and drained.
  pub record Link : Type 0 where
    pub counters : Counters
    pub session : Session
    pub manager : Manager c
    pub received : PerDirection Bytes
    pub delivered : PerDirection Bytes

  -- One round. The end of a stream carries no bytes, so its event is recorded with none.
  unfoldable pub pump : Direction → Tick → Link → Outcome × Link
  unfolding next_data next_eof record_event failure_message
  pump d t l =
      let (p, counters) = counted d t l.counters in
      let (accepted, session, manager) =
        record_event c (observation d (kind_of t) t p) l.session l.manager in
      (
        outcome_of t accepted session,
        record {
          counters = counters;
          session = session;
          manager = manager;
          received = put l.received d (at l.received d ++ t.payload);
          delivered =
              if is_some t.forward_error
              then l.delivered
              else put l.delivered d (at l.delivered d ++ t.payload);
        },
      )
