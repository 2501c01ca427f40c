-- ===== src/Relay/Counters.antt =====
-- `_RelayCounters` of proxy/relay.py.
use retail_print_guard.Base.{ℕ, ◌+◌}
use retail_print_guard.Spool.Types.{Direction, PerDirection, at, put, everywhere}

pub record Counters : Type 0 where
  pub observed_events : ℕ
  pub observed_bytes : PerDirection ℕ
  pub observed_chunks : PerDirection ℕ
  pub direction_events : PerDirection ℕ

abbrev pub no_traffic : Counters
no_traffic = record {
  observed_events = 0;
  observed_bytes = everywhere 0;
  observed_chunks = everywhere 0;
  direction_events = everywhere 0;
}

-- The offset, the direction's sequence and the observed sequence of an event.
pub record Position : Type 0 where
  pub offset : ℕ
  pub direction_sequence : ℕ
  pub observed_sequence : ℕ

abbrev pub position : Direction → Counters → Position
position d c = record {
  offset = at c.observed_bytes d;
  direction_sequence = at c.direction_events d;
  observed_sequence = c.observed_events;
}

unfoldable pub next_data : Direction → ℕ → Counters → Position × Counters
next_data d length c = (
  position d c,
  record {
    observed_events = c.observed_events + 1;
    observed_bytes = put c.observed_bytes d (at c.observed_bytes d + length);
    observed_chunks = put c.observed_chunks d (at c.observed_chunks d + 1);
    direction_events = put c.direction_events d (at c.direction_events d + 1);
  },
)

unfoldable pub next_eof : Direction → Counters → Position × Counters
next_eof d c = (
  position d c,
  record c {
    observed_events = c.observed_events + 1;
    direction_events = put c.direction_events d (at c.direction_events d + 1);
  },
)
