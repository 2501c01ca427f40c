-- ===== src/Spool/Timeline/Accepts.antt =====
-- `_inspect_timeline` accepts what `_SessionSpool.append` writes, and recovers its counters.
use retail_print_guard.Base.{
  ℕ, ◌≡◌, ◌↔◌, refl, true, false, none, some, List, [], ◌∷◌, ◌++◌, arith, str_eq, is_empty, length,
  str_eq_refl, opt_eq_refl, String,
}
use retail_print_guard.Spool.Types.{
  client_to_device, device_to_client, Direction, value, CaptureEvent, Codec,
}
use retail_print_guard.Spool.Writer.{
  Writer, Disk, append_check, append, advance, event_body, write_raw, write_line,
}
use retail_print_guard.Spool.Timeline.{
  Inspection, start, contains, inspect_entry, inspect_line, inspect, direction_of, entry_ok,
  count_entry,
}
use retail_print_guard.Spool.Timeline.Laws.{RoundTrips, read_back, inspect-append}

is_empty_iff {ℓ} : {A : Type ℓ} (xs : List A) → (is_empty xs ≡ true) ↔ (length xs ≡ 0)
is_empty_iff [] = ground arith
is_empty_iff (x ∷ xs) = ground arith

module _ (c : Codec) where
  open c use {dump, dump_entry, digest}

  -- What the inspection finds in the file of a writer, `seen` being the observed sequences.
  abbrev pub mirror : Writer c → List ℕ → Inspection
  mirror w seen = record {
    events = w.next_sequence;
    data_chunks = w.captured_chunks;
    eof_events = w.eof_events;
    covered_bytes = w.captured_bytes;
    direction_sequences = w.next_direction_sequence;
    observed_sequences = seen;
    previous_hash = w.previous_event_sha256;
    integrity_ok = true;
  }

  -- The events that the relay submits: data is never empty, and the number is new.
  pub record IsNew (e : CaptureEvent) (seen : List ℕ) : Type 0 where
    pub carries : str_eq e.kind "data" ≡ true → is_empty e.payload ≡ false
    pub fresh : contains e.observed_sequence seen ≡ false

  abbrev hash_of : Writer c → CaptureEvent → String
  hash_of w e = digest (dump (event_body c w e))

  direction_of-value : (d : Direction) → direction_of (value d) ≡ some d
  direction_of-value client_to_device = refl
  direction_of-value device_to_client = refl

  entry_ok_lem :
      (w : Writer c) (e : CaptureEvent) (seen : List ℕ)
      → append_check c w e ≡ none
      → IsNew e seen
      → entry_ok c e.direction (read_back c (event_body c w e) (hash_of w e)) (mirror w seen) ≡ true
  unfolding append_check entry_ok
  entry_ok_lem w e seen h n = ground (
    arith,
    n.carries,
    n.fresh,
    opt_eq_refl w.previous_event_sha256,
    str_eq_refl (hash_of w e),
    is_empty_iff e.payload,
  )

  inspect_line_lem :
      (w : Writer c) (e : CaptureEvent) (seen : List ℕ)
      → RoundTrips c
      → append_check c w e ≡ none
      → IsNew e seen
      → inspect_line c (dump_entry (event_body c w e) (hash_of w e)) (mirror w seen)
        ≡ some (mirror (advance c e (hash_of w e) w) (e.observed_sequence ∷ seen))
  unfolding inspect_line count_entry advance
  inspect_line_lem w e seen laws h n =
      rw (laws.load-dump_entry (event_body c w e) (hash_of w e), inspect_line)
        (rw (direction_of-value e.direction, inspect_entry)
          (rw (entry_ok_lem w e seen h n, inspect_entry) refl))

  abbrev line_of : Writer c → CaptureEvent → c.Text
  line_of w e = dump_entry (event_body c w e) (hash_of w e)

  -- A call of `append` that returns has passed the checks, and has written its line.
  append-eq_none :
      (disk : Disk c) (e : CaptureEvent) (w : Writer c) {w' : Writer c}
      → w.torn ≡ none
      → append c disk e w ≡ (none, w')
      → (append_check c w e ≡ none)
        × (w'.torn ≡ none)
        × (w'.timeline ≡ w.timeline ++ line_of w e ∷ [])
        × ((seen : List ℕ) → mirror w' seen ≡ mirror (advance c e (hash_of w e) w) seen)
  unfolding append advance write_raw write_line
  append-eq_none disk e w whole h = (ground arith, ground arith, ground arith, λ seen. ground arith)

  one_line :
      (w : Writer c) (e : CaptureEvent) (seen : List ℕ)
      → RoundTrips c
      → append_check c w e ≡ none
      → IsNew e seen
      → inspect c (line_of w e ∷ []) (mirror w seen)
        ≡ mirror (advance c e (hash_of w e) w) (e.observed_sequence ∷ seen)
  unfolding inspect
  one_line w e seen laws h n = rw (inspect_line_lem w e seen laws h n, inspect)

  -- A writer of which the inspection of its file finds exactly the counters.
  pub record IsMirrored (w : Writer c) (seen : List ℕ) : Type 0 where
    pub whole : w.torn ≡ none
    pub found : inspect c w.timeline start ≡ mirror w seen

  -- An append that meets no error leaves a timeline of which the inspection finds no fault and
  -- exactly the counters of the writer, when it did so before, the observed number of the event is
  -- new, and data is not empty. (What was dumped is read back.)
  pub append-IsMirrored :
      (laws : RoundTrips c) (disk : Disk c) (e : CaptureEvent) (w w' : Writer c) (seen : List ℕ)
      → IsMirrored w seen
      → IsNew e seen
      → append c disk e w ≡ (none, w')
      → IsMirrored w' (e.observed_sequence ∷ seen)
  append-IsMirrored laws disk e w w' seen m n h =
      let (checked, whole, longer, counters) = append-eq_none disk e w m.whole h in
      record {
        whole = whole;
        found =
            rw (longer, inspect-append c w.timeline (line_of w e ∷ []) start refl, m.found)
              (rw (counters (e.observed_sequence ∷ seen)) (one_line w e seen laws checked n));
      }
