-- ===== src/Spool/Timeline.antt =====
-- `_inspect_timeline` of proxy/spool.py: how a timeline is checked after an unclean exit.
pub mod Laws
pub mod Accepts
pub mod Tamper
use retail_print_guard.Base.{
  ℕ, ◌+◌, String, Bool, true, false, not, ◌&&◌, ◌||◌, Option, none, some, List, [], ◌∷◌, ◌==◌,
  if◌then◌else◌, str_eq, opt_eq,
}
use retail_print_guard.Base.Int.{pos, pos_part, ltb_ℤ, eqb_ℤ}
use retail_print_guard.Spool.Types.{
  Direction, client_to_device, device_to_client, value, PerDirection, at, put, everywhere,
  LoadedEntry, Codec,
}

-- `events` to `previous_hash` are the locals of the loop; a set of sequences is a list here.
pub record Inspection : Type 0 where
  pub events : ℕ
  pub data_chunks : PerDirection ℕ
  pub eof_events : PerDirection ℕ
  pub covered_bytes : PerDirection ℕ
  pub direction_sequences : PerDirection ℕ
  pub observed_sequences : List ℕ
  pub previous_hash : Option String
  pub integrity_ok : Bool

abbrev pub start : Inspection
start = record {
  events = 0;
  data_chunks = everywhere 0;
  eof_events = everywhere 0;
  covered_bytes = everywhere 0;
  direction_sequences = everywhere 0;
  observed_sequences = [];
  previous_hash = none;
  integrity_ok = true;
}

abbrev pub contains : ℕ → List ℕ → Bool
contains n [] = false
contains n (m ∷ ms) = n == m || contains n ms

-- `direction in covered_bytes`
abbrev pub direction_of : String → Option Direction
direction_of s =
    if str_eq s (value client_to_device)
    then some client_to_device
    else if str_eq s (value device_to_client)
    then some device_to_client
    else none

module _ (c : Codec) where
  open c use {Text, load, escapes, digest}

  -- The counters of a good entry.
  unfoldable pub count_entry : Direction → LoadedEntry Text → Inspection → Inspection
  count_entry d e s =
      let is_data = str_eq e.kind "data" in
      record s {
        data_chunks =
            if is_data then put s.data_chunks d (at s.data_chunks d + 1) else s.data_chunks;
        covered_bytes =
            if is_data
            then put s.covered_bytes d (at s.covered_bytes d + pos_part e.length)
            else s.covered_bytes;
        eof_events = if is_data then s.eof_events else put s.eof_events d (at s.eof_events d + 1);
        direction_sequences = put s.direction_sequences d (at s.direction_sequences d + 1);
        observed_sequences = pos_part e.observed_sequence ∷ s.observed_sequences;
        previous_hash = some e.event_hash;
        events = s.events + 1;
      }

  -- The tests of the loop's body on an entry of direction `d`: true where none raises.
  unfoldable pub entry_ok : Direction → LoadedEntry Text → Inspection → Bool
  entry_ok d e s =
      eqb_ℤ e.sequence (pos s.events)
      && not (ltb_ℤ e.observed_sequence (pos 0))
      && not (contains (pos_part e.observed_sequence) s.observed_sequences)
      && eqb_ℤ e.direction_sequence (pos (at s.direction_sequences d))
      && eqb_ℤ e.offset (pos (at s.covered_bytes d))
      && not (ltb_ℤ e.length (pos 0))
      && opt_eq e.previous s.previous_hash
      && str_eq (digest e.without_hash) e.event_hash
      && (if str_eq e.kind "data"
          then not (ltb_ℤ e.length (pos 1))
          else str_eq e.kind "eof" && eqb_ℤ e.length (pos 0))

  -- One round of the loop on a line that loads; `none` where a test raises.
  unfoldable pub inspect_entry : LoadedEntry Text → Inspection → Option Inspection
  unfolding entry_ok count_entry
  inspect_entry e s = elim (direction_of e.direction) [
    | none ↦ none
    | some d ↦ if entry_ok d e s then some (count_entry d e s) else none
  ]

  -- One round of the loop on a line of the file; `none` where anything raises.
  unfoldable pub inspect_line : Text → Inspection → Option Inspection
  unfolding inspect_entry
  inspect_line line s = elim (load line) [ none ↦ none | some e ↦ inspect_entry e s ]

  -- The loop: the first bad line ends it. This is the answer where what the line raises is caught.
  unfoldable pub inspect : List Text → Inspection → Inspection
  inspect [] s = s
  inspect (line ∷ lines) s = elim (inspect_line line s) [
    | none ↦ record s { integrity_ok = false }
    | some s' ↦ inspect lines s'
  ]

  -- Whether the bad line that ends the loop raises what is not caught, and so ends the recovery.
  unfoldable pub breaks : List Text → Inspection → Bool
  breaks [] s = false
  breaks (line ∷ lines) s = elim (load line) [
    | none ↦ escapes line
    | some e ↦ elim (inspect_entry e s) [ none ↦ false | some s' ↦ breaks lines s' ]
  ]
