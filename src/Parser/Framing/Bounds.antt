-- ===== src/Parser/Framing/Bounds.antt =====
-- The framing of parser/rch.py moves on in every round, and its results are bounded.
use retail_print_guard.Base.{
  ℕ, zero, suc, ◌+◌, ◌-◌, ◌≤◌, Bool, true, false, Option, none, some, ◌≡◌, refl, ap, List, [], ◌∷◌,
  inl, inr, ltb, length, length-append, take, all_of, ◌&&◌, ◌==◌, either, arith, Bool-cases,
}
use retail_print_guard.Base.Int.{ℤ}
use retail_print_guard.Parser.Framing.{
  Issue, FramedStream, Round, stops, moves, frame_of, drop, add_issue, add_frame, acknowledge,
  keep_frame, expected_bcc, round, scan, set_last, limited, finished, read_frame, read_body,
  read_raw, is_digit, byte_at, number_from, slice, frame_stream,
}

record IsBounded (s : FramedStream) : Type 0 where
  pub few_frames : length s.frames ≤ 8192
  pub few_issues : length s.issues ≤ 1024

IsForward : Round → Type 0
IsForward (stops s) = IsBounded s
IsForward (moves n s) = (1 ≤ n) × IsBounded s

add_issue-IsBounded :
    (issue : Issue) (s : FramedStream) → IsBounded s → IsBounded (add_issue issue s)
add_issue-IsBounded issue s h = record {
  few_frames = h.few_frames;
  few_issues = ground (arith, h.few_issues, length-append s.issues (issue ∷ []));
}

add_frame-IsBounded :
    (cursor : ℕ) (raw : List ℕ) (total : ℕ) (valid : Bool) (s : FramedStream)
    → IsBounded s
    → IsBounded (add_frame cursor raw total valid s)
add_frame-IsBounded cursor raw total valid s h = record {
  few_frames = ground (
    arith,
    h.few_frames,
    length-append s.frames (frame_of cursor raw total valid (suc (length s.frames)) ∷ []),
  );
  few_issues = h.few_issues;
}

forward : (n : ℕ) (s : FramedStream) → 1 ≤ n → IsBounded s → IsForward (moves n s)
unfolding IsForward
forward n s le h = (le, h)

keep_frame-IsForward :
    (cursor : ℕ) (raw : List ℕ) (total : ℕ) (s : FramedStream) (e : Option ℤ)
    → 1 ≤ total
    → IsBounded s
    → IsForward (keep_frame cursor raw total s e)
keep_frame-IsForward cursor raw total s none le h = forward total _ le (add_issue-IsBounded _ s h)
keep_frame-IsForward cursor raw total s (some e) le h =
    either IsForward _ _ _ (forward total _ le (add_frame-IsBounded cursor raw total true s h)) (
      forward total _ le (
        add_frame-IsBounded cursor raw total false _
          (add_issue-IsBounded (Issue.bcc_mismatch cursor) s h)))

stopped : (issue : Issue) (s : FramedStream) → IsBounded s → IsForward (stops (add_issue issue s))
unfolding IsForward
stopped issue s h = add_issue-IsBounded issue s h

skipped : (issue : Issue) (s : FramedStream) → IsBounded s → IsForward (moves 1 (add_issue issue s))
unfolding IsForward
skipped issue s h = (omega arith, add_issue-IsBounded issue s h)

read_raw-IsForward :
    (cursor : ℕ) (raw : List ℕ) (total : ℕ) (s : FramedStream)
    → 1 ≤ total
    → IsBounded s
    → IsForward (read_raw cursor raw total s)
read_raw-IsForward cursor raw total s le h =
    either IsForward (byte_at (total - 1) raw == 3) _ _
      (keep_frame-IsForward cursor raw total s
        (expected_bcc (byte_at (total - 3) raw) (byte_at (total - 2) raw)) le h)
      (skipped (Issue.missing_etx cursor) s h)

read_body-IsForward :
    (cursor : ℕ) (rest : List ℕ) (total : ℕ) (s : FramedStream)
    → 1 ≤ total
    → IsBounded s
    → IsForward (read_body cursor rest total s)
read_body-IsForward cursor rest total s le h =
    either IsForward (ltb (length rest) total) _ _
      (stopped (Issue.truncated_frame cursor (length rest)) s h)
      (read_raw-IsForward cursor (take total rest) total s le h)

read_frame-IsForward :
    (cursor : ℕ) (rest : List ℕ) (s : FramedStream)
    → IsBounded s
    → IsForward (read_frame cursor rest s)
read_frame-IsForward cursor rest s h =
    either IsForward (ltb (length rest) 6) _ _
      (stopped (Issue.truncated_header cursor (length rest)) s h)
      (either IsForward (all_of is_digit (slice 1 2 rest) && all_of is_digit (slice 3 3 rest)) _ _
        (read_body-IsForward cursor rest (number_from 0 (slice 3 3 rest) + 11) s (omega arith) h)
        (skipped (Issue.malformed_header cursor) s h))

round-IsForward :
    (cursor byte : ℕ) (bytes : List ℕ) (s : FramedStream)
    → IsBounded s
    → IsForward (round cursor byte bytes s)
unfolding round
round-IsForward cursor byte bytes s h =
    either IsForward _ _ _
      (forward 1 (acknowledge s) (omega arith)
        record { few_frames = h.few_frames; few_issues = h.few_issues })
      (either IsForward _ _ _ (read_frame-IsForward cursor (byte ∷ bytes) s h)
        (forward _ _ (omega arith) (add_issue-IsBounded _ s h)))

shorter : (n : ℕ) (bs : List ℕ) → length (drop n bs) ≤ length bs
shorter zero bs = omega arith
shorter (suc n) [] = omega arith
shorter (suc n) (b ∷ bs) = omega (arith, shorter n bs)

length-drop : (n : ℕ) (b : ℕ) (bs : List ℕ) → 1 ≤ n → length (drop n (b ∷ bs)) ≤ length bs
length-drop zero b bs h = absurd (omega arith)
length-drop (suc n) b bs h = shorter n bs

abbrev Returns : Option FramedStream → Type 0
Returns o = (t : FramedStream) × ((o ≡ some t) × IsBounded t)

after :
    (fuel cursor byte : ℕ) (bytes : List ℕ) (r : Round)
    → IsForward r
    → ((n : ℕ) (u : FramedStream)
        → 1 ≤ n
        → IsBounded u
        → Returns (scan fuel (cursor + n) (drop n (byte ∷ bytes)) u))
    → Returns
        (elim r [ stops u ↦ some u | moves n u ↦ scan fuel (cursor + n) (drop n (byte ∷ bytes)) u ])
unfolding IsForward
after fuel cursor byte bytes (stops u) g k = (u, (refl, g))
after fuel cursor byte bytes (moves n u) g k = k n u g.0 g.1

-- With a unit of fuel for each byte the loop returns.
scan-IsBounded :
    (fuel cursor : ℕ) (bytes : List ℕ) (s : FramedStream)
    → length bytes ≤ fuel
    → IsBounded s
    → Returns (scan fuel cursor bytes s)
unfolding scan
scan-IsBounded fuel cursor [] s le h = (s, (refl, h))
scan-IsBounded zero cursor (byte ∷ bytes) s le h = absurd (omega arith)
scan-IsBounded (suc fuel) cursor (byte ∷ bytes) s le h =
    after fuel cursor byte bytes (round cursor byte bytes s) (round-IsForward cursor byte bytes s h)
      (λ n u far fine.
        scan-IsBounded fuel (cursor + n) (drop n (byte ∷ bytes)) u
          (omega (arith, length-drop n byte bytes far)) fine)

length-set_last : (issues : List Issue) → length (set_last issues) ≡ length issues
length-set_last [] = refl
length-set_last (i ∷ []) = refl
length-set_last (i ∷ j ∷ rest) = ap suc (length-set_last (j ∷ rest))

length-limited : (issues : List Issue) → length (limited issues) ≡ length issues
length-limited issues = elim (Bool-cases (ltb (length issues) 1024)) [
  | inl e ↦ rw e refl
  | inr e ↦ rw e (length-set_last issues)
]

length-finished :
    (too_long : Bool) (s : FramedStream) → IsBounded s → length (finished too_long s).issues ≤ 1025
length-finished true s h = omega (
  arith,
  h.few_issues,
  length-limited s.issues,
  length-append (limited s.issues) (Issue.parser_input_limit_exceeded ∷ []),
)
length-finished false s h = omega (arith, h.few_issues, length-limited s.issues)

-- For every payload, framing returns, with at most 8192 frames and at most 1025 issues.
pub frame_stream-IsBounded :
    (payload : List ℕ)
    → (t : FramedStream) × ((frame_stream payload ≡ some t)
        × ((length t.frames ≤ 8192) × (length t.issues ≤ 1025)))
unfolding frame_stream
frame_stream-IsBounded payload =
    let view = take 16777216 payload in
    let too_long = ltb 16777216 (length payload) in
    let s : FramedStream = record {
      frames = [];
      ack_count = 0;
      issues = [];
      truncated = too_long;
    } in
    let (t, (returns, bounded)) =
      scan-IsBounded (length view) 0 view s (omega arith)
        record { few_frames = omega arith; few_issues = omega arith } in
    (
      finished too_long t,
      (rw returns refl, (bounded.few_frames, length-finished too_long t bounded)),
    )
