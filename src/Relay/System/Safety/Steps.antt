-- ===== src/Relay/System/Safety/Steps.antt =====
-- One round of a pump: what it puts into the queue, and what it does to a safe writer.
use retail_print_guard.Base.{
  ℕ, ◌+◌, ◌≡◌, refl, ◌⊎◌, inl, inr, true, false, [], ◌∷◌, ◌++◌, arith, is_empty, if◌then◌else◌,
  str_eq,
}
use retail_print_guard.Spool.Types.{
  Direction, client_to_device, device_to_client, PerDirection, at, put, Bytes, CaptureEvent, Codec,
}
use retail_print_guard.Spool.Session.{
  Session, Observation, Manager, event_command, event_of, record_event,
}
use retail_print_guard.Relay.Pump.{Tick, Link, observation, counted, kind_of, pump}
use retail_print_guard.Relay.System.Ideal.{Ideal, play, is_empty_nil}
use retail_print_guard.Relay.System.Safety.Queue.{IsSafe}

-- The chunks counted and the bytes received after a round.
abbrev pub seen_after : Direction → Tick → PerDirection ℕ → PerDirection ℕ
seen_after d t seen = if is_empty t.payload then seen else put seen d (at seen d + 1)

abbrev pub received_after : Direction → Tick → PerDirection Bytes → PerDirection Bytes
received_after d t received = put received d (at received d ++ t.payload)

-- The event of a round.
pub record IsEventOf (d : Direction) (t : Tick) (e : CaptureEvent) : Type 0 where
  pub direction : e.direction ≡ d
  pub payload : e.payload ≡ t.payload
  pub kind : str_eq e.kind "data" ≡ (if is_empty t.payload then false else true)

-- A round that is not recorded leaves the writer safe: a chunk more was seen than can be written.
pub IsSafe-skip :
    (d : Direction) (t : Tick) (i : Ideal) (seen : PerDirection ℕ) (received : PerDirection Bytes)
    → IsSafe i seen received
    → IsSafe i (seen_after d t seen) (received_after d t received)
IsSafe-skip client_to_device t i seen received h =
    ground (arith, is_empty_nil received.client t.payload)
IsSafe-skip device_to_client t i seen received h =
    ground (arith, is_empty_nil received.device t.payload)

-- A round that is recorded leaves it safe once its event is written.
pub IsSafe-play :
    (d : Direction) (t : Tick) (e : CaptureEvent) (i : Ideal) (seen : PerDirection ℕ)
    (received : PerDirection Bytes)
    → IsEventOf d t e
    → IsSafe i seen received
    → IsSafe (play e i) (seen_after d t seen) (received_after d t received)
unfolding play
IsSafe-play client_to_device t e i seen received m h =
    rw (m.direction, m.payload, m.kind)
      (ground (arith, is_empty_nil received.client t.payload, is_empty_nil i.raw.client t.payload))
IsSafe-play device_to_client t e i seen received m h =
    rw (m.direction, m.payload, m.kind)
      (ground (arith, is_empty_nil received.device t.payload, is_empty_nil i.raw.device t.payload))

kind_of_payload :
    (xs : Bytes)
    → str_eq (if is_empty xs then "eof" else "data") "data" ≡ (if is_empty xs then false else true)
kind_of_payload [] = refl
kind_of_payload (x ∷ xs) = refl

module _ (c : Codec) where
  abbrev observation_of : Direction → Tick → Link c → Observation
  observation_of d t l = observation d (kind_of t) t (counted d t l.counters).0

  -- What a round does to the link.
  pub record Round (d : Direction) (t : Tick) (l l' : Link c) : Type 0 where
    pub seen : l'.counters.observed_chunks ≡ seen_after d t l.counters.observed_chunks
    pub received : l'.received ≡ received_after d t l.received
    pub named : l'.session.descriptor ≡ l.session.descriptor
    pub queue :
        (l'.manager.queue ≡ l.manager.queue)
        ⊎ ((e : CaptureEvent) × (l'.manager.queue
              ≡ l.manager.queue ++ event_command l.session.descriptor.session_id e ∷ [])
            × IsEventOf d t e)

  queue-record_event :
      (o : Observation) (s : Session) (m : Manager c)
      → ((record_event c o s m).2.queue ≡ m.queue)
        ⊎ ((record_event c o s m).2.queue
            ≡ m.queue ++ event_command s.descriptor.session_id (event_of c o s) ∷ [])
  unfolding record_event
  queue-record_event o s m = grind arith

  pub pump-Round : (d : Direction) (t : Tick) (l : Link c) → Round d t l (pump c d t l).1
  unfolding pump
  pump-Round d t l = record {
    seen = ground arith;
    received = refl;
    named = ground arith;
    queue = elim (queue-record_event (observation_of d t l) l.session l.manager) [
      | inl same ↦ inl same
      | inr longer ↦ inr (
        event_of c (observation_of d t l) l.session,
        longer,
        record { direction = refl; payload = refl; kind = kind_of_payload t.payload },
      )
    ];
  }
