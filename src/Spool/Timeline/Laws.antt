-- ===== src/Spool/Timeline/Laws.antt =====
-- What the code relies on of json and hashlib, and how the loop of `_inspect_timeline` goes over a
-- longer file.
use retail_print_guard.Base.{
  ◌≡◌, ◌∙◌, Option-cases, String, true, some, List, [], ◌∷◌, ◌++◌, inl, inr, if◌then◌else◌, arith,
}
use retail_print_guard.Base.Int.{pos}
use retail_print_guard.Spool.Types.{EventBody, LoadedEntry, Codec}
use retail_print_guard.Spool.Timeline.{Inspection, inspect_line, inspect}

module _ (c : Codec) where
  open c use {Text, dump, dump_entry, load, digest}

  -- The entry that `append` writes, as it is read back.
  abbrev pub read_back : EventBody → String → LoadedEntry Text
  read_back b h = record {
    event_hash = h;
    direction = b.direction;
    kind = b.kind;
    sequence = pos b.sequence;
    observed_sequence = pos b.observed_sequence;
    direction_sequence = pos b.direction_sequence;
    offset = pos b.offset;
    length = pos b.length;
    previous = b.previous_event_sha256;
    without_hash = dump b;
  }

  -- `json.loads` reads what `json.dumps` has written of a dictionary of texts, numbers, truth
  -- values and nulls.
  pub record RoundTrips : Type 0 where
    pub load-dump_entry :
        (b : EventBody) (h : String) → load (dump_entry b h) ≡ some (read_back b h)

  -- Entries of one canonical text are one dictionary, so they have one previous hash.
  pub record IsCanonical : Type 0 where
    pub previous_of_text :
        (l l' : Text) (e e' : LoadedEntry Text)
        → load l ≡ some e
        → load l' ≡ some e'
        → e.without_hash ≡ e'.without_hash
        → e.previous ≡ e'.previous

  -- Nobody finds two texts of one SHA-256.
  pub record IsCollisionFree : Type 0 where
    pub digest_injective : (t t' : Text) → digest t ≡ digest t' → t ≡ t'

  pub integrity-inspect_line :
      (l : Text) (s s' : Inspection)
      → inspect_line c l s ≡ some s'
      → s'.integrity_ok ≡ s.integrity_ok
  unfolding inspect_line
  integrity-inspect_line l s s' h = ground arith

  -- The file that is longer by `ys` is read by going on from where `xs` has ended, if that was good.
  pub inspect-append :
      (xs ys : List Text) (s : Inspection)
      → s.integrity_ok ≡ true
      → inspect c (xs ++ ys) s
        ≡ (if (inspect c xs s).integrity_ok then inspect c ys (inspect c xs s) else inspect c xs s)
  unfolding inspect
  inspect-append [] ys s ok = rw ok
  inspect-append (x ∷ xs) ys s ok = elim (Option-cases (inspect_line c x s)) [
    | inl bad ↦ rw (bad, inspect)
    | inr (s', good) ↦
        rw (good, inspect) (inspect-append xs ys s' (integrity-inspect_line x s s' good ∙ ok))
  ]
