-- ===== src/Spool/Timeline/Tamper.antt =====
-- The hash chain of the timeline: what the last hash of a good file fixes.
use retail_print_guard.Base.{
  ◌+◌, ◌≡◌, ◌∙◌, refl, sym, ap, true, Option, none, some, List, [], ◌∷◌, map, arith, length,
  Option-cases, inl, inr, str_eq, str_eq_iff, opt_eq, opt_eq_sound,
}
use retail_print_guard.Spool.Types.{LoadedEntry, Codec}
use retail_print_guard.Spool.Timeline.{Inspection, start, inspect_entry, inspect_line, inspect}
use retail_print_guard.Spool.Timeline.Laws.{IsCanonical, IsCollisionFree}

module _ (c : Codec) where
  open c use {Text, load, digest}

  -- The entry of a line without its hash, if the line loads.
  abbrev pub content : Text → Option Text
  content line = elim (load line) [ none ↦ none | some e ↦ some e.without_hash ]

  -- What the tests say of a line that passes.
  record Passed (line : Text) (s s' : Inspection) : Type 0 where
    entry : LoadedEntry Text
    loaded : load line ≡ some entry
    chained : entry.previous ≡ s.previous_hash
    hashed : digest entry.without_hash ≡ entry.event_hash
    last : s'.previous_hash ≡ some entry.event_hash

  passed_entry :
      (e : LoadedEntry Text) (s s' : Inspection)
      → inspect_entry c e s ≡ some s'
      → (opt_eq e.previous s.previous_hash ≡ true)
        × (str_eq (digest e.without_hash) e.event_hash ≡ true)
        × (s'.previous_hash ≡ some e.event_hash)
  unfolding inspect_entry
  passed_entry e s s' h = (ground arith, ground arith, ground arith)

  passed : (line : Text) (s s' : Inspection) → inspect_line c line s ≡ some s' → Passed line s s'
  unfolding inspect_line
  passed line s s' h = elim (Option-cases (load line)) [
    | inl bad ↦ absurd (ground (arith, bad))
    | inr (e, good) ↦
        let (p, q, r) = passed_entry e s s' (ground (arith, good)) in
        record {
          entry = e;
          loaded = good;
          chained = opt_eq_sound _ _ p;
          hashed = (str_eq_iff _ _).0 q;
          last = r;
        }
  ]

  -- Two lines with one hash have one content, and were chained to one hash.
  step_back :
      (l l' : Text) (s s' t t' : Inspection)
      → IsCanonical c
      → IsCollisionFree c
      → inspect_line c l s ≡ some t
      → inspect_line c l' s' ≡ some t'
      → t.previous_hash ≡ t'.previous_hash
      → (content l ≡ content l') × (s.previous_hash ≡ s'.previous_hash)
  step_back l l' s s' t t' canonical free h h' e =
      let p = passed l s t h in
      let p' = passed l' s' t' h' in
      let hashes : p.entry.event_hash ≡ p'.entry.event_hash = cc (p.last, p'.last) in
      let texts : p.entry.without_hash ≡ p'.entry.without_hash =
        free.digest_injective _ _ (p.hashed ∙ hashes ∙ sym p'.hashed) in
      let previous : p.entry.previous ≡ p'.entry.previous =
        canonical.previous_of_text l l' p.entry p'.entry p.loaded p'.loaded texts in
      (rw (p.loaded, p'.loaded, content) (ap some texts), sym p.chained ∙ previous ∙ p'.chained)

  -- A file that is good has a good first line.
  first_line :
      (x : Text) (xs : List Text) (s : Inspection)
      → (inspect c (x ∷ xs) s).integrity_ok ≡ true
      → (t : Inspection) × (inspect_line c x s ≡ some t) × (inspect c (x ∷ xs) s ≡ inspect c xs t)
  unfolding inspect
  first_line x xs s ok = elim (Option-cases (inspect_line c x s)) [
    | inl bad ↦ absurd (ground (arith, bad))
    | inr (t, good) ↦ (t, good, rw (good, inspect))
  ]

  -- The same for two files of as many lines, both good up to their ends.
  chain_back :
      (xs ys : List Text) (s s' : Inspection)
      → IsCanonical c
      → IsCollisionFree c
      → length xs ≡ length ys
      → (inspect c xs s).integrity_ok ≡ true
      → (inspect c ys s').integrity_ok ≡ true
      → (inspect c xs s).previous_hash ≡ (inspect c ys s').previous_hash
      → (map content xs ≡ map content ys) × (s.previous_hash ≡ s'.previous_hash)
  unfolding inspect
  chain_back [] [] s s' canonical free n ok ok' e = (refl, e)
  chain_back [] (y ∷ ys) s s' canonical free n ok ok' e = absurd (omega arith)
  chain_back (x ∷ xs) [] s s' canonical free n ok ok' e = absurd (omega arith)
  chain_back (x ∷ xs) (y ∷ ys) s s' canonical free n ok ok' e =
      let (t, good, rest) = first_line x xs s ok in
      let (t', good', rest') = first_line y ys s' ok' in
      let (tails, hashes) =
        chain_back xs ys t t' canonical free (omega arith) (rw rest at ok) (rw rest' at ok')
          (rw (rest, rest') at e) in
      let (heads, before) = step_back x y s s' t t' canonical free good good' hashes in (cc, before)

  events-inspect_line :
      (l : Text) (s s' : Inspection) → inspect_line c l s ≡ some s' → s'.events ≡ s.events + 1
  unfolding inspect_line
  events-inspect_line l s s' h = ground arith

  events-inspect :
      (xs : List Text) (s : Inspection)
      → (inspect c xs s).integrity_ok ≡ true
      → (inspect c xs s).events ≡ s.events + length xs
  unfolding inspect
  events-inspect [] s ok = omega arith
  events-inspect (x ∷ xs) s ok =
      let (t, good, rest) = first_line x xs s ok in
      rw rest (omega (arith, events-inspect xs t (rw rest at ok), events-inspect_line x s t good))

  -- Of two timelines that are found intact, a manifest that records the same number of events and
  -- the same last hash for both fixes the entries: they are equal, line by line. (SHA-256 has no
  -- collisions, and one canonical text stands for one dictionary.)
  pub last_hash_fixes_timeline :
      (xs ys : List Text)
      → IsCanonical c
      → IsCollisionFree c
      → (inspect c xs start).integrity_ok ≡ true
      → (inspect c ys start).integrity_ok ≡ true
      → (inspect c xs start).events ≡ (inspect c ys start).events
      → (inspect c xs start).previous_hash ≡ (inspect c ys start).previous_hash
      → map content xs ≡ map content ys
  last_hash_fixes_timeline xs ys canonical free ok ok' n e =
      (chain_back xs ys start start canonical free
        (omega (arith, events-inspect xs start ok, events-inspect ys start ok')) ok ok' e).0
