-- ===== src/Parser/Framing/RoundTrip/Rounds.antt =====
-- One round of `frame_stream` in parser/rch.py, where its tests pass.
use retail_print_guard.Base.{
  ℕ, zero, suc, ◌+◌, ◌-◌, ◌≤◌, ◌<◌, true, false, ◌&&◌, some, List, [], ◌∷◌, ◌++◌, length, ◌≡◌, refl,
  ap, ltb, take, all_of, arith,
}
use retail_print_guard.Base.Int.{ℤ, pos, eqb_ℤ}
use retail_print_guard.Parser.Framing.{
  FramedStream, moves, bcc, is_digit, drop, slice, byte_at, read_frame, read_body, read_raw,
  keep_frame, expected_bcc, number_from, add_frame,
}

pub take-append : (xs ys : List ℕ) → take (length xs) (xs ++ ys) ≡ xs
take-append [] ys = refl
take-append (x ∷ xs) ys = ap (λ l. x ∷ l) (take-append xs ys)

pub drop-append : (xs ys : List ℕ) → drop (length xs) (xs ++ ys) ≡ ys
drop-append [] ys = refl
drop-append (x ∷ xs) ys = drop-append xs ys

pub byte_at-append :
    (k i : ℕ) (xs ys : List ℕ) → k ≡ length xs + i → byte_at k (xs ++ ys) ≡ byte_at i ys
byte_at-append k i [] ys e = ap (λ n. byte_at n ys) (omega (arith, e))
byte_at-append zero i (x ∷ xs) ys e = absurd (omega (arith, e))
byte_at-append (suc k) i (x ∷ xs) ys e = byte_at-append k i xs ys (omega (arith, e))

pub read_raw_lem :
    (cursor t hi lo : ℕ) (raw : List ℕ) (s : FramedStream) (e : ℤ)
    → byte_at (t - 1) raw ≡ 3
    → byte_at (t - 3) raw ≡ hi
    → byte_at (t - 2) raw ≡ lo
    → expected_bcc hi lo ≡ some e
    → eqb_ℤ (pos (bcc (take (t - 3) raw))) e ≡ true
    → read_raw cursor raw t s ≡ moves t (add_frame cursor raw t true s)
read_raw_lem cursor t hi lo raw s e etx high low expected valid =
    rw (read_raw, etx, high, low, expected, keep_frame, valid) refl

pub read_body_lem :
    (cursor t : ℕ) (xs : List ℕ) (s : FramedStream)
    → ltb (length xs) t ≡ false
    → read_body cursor xs t s ≡ read_raw cursor (take t xs) t s
read_body_lem cursor t xs s enough = rw (read_body, enough) refl

pub read_frame_lem :
    (cursor : ℕ) (xs : List ℕ) (s : FramedStream)
    → ltb (length xs) 6 ≡ false
    → (all_of is_digit (slice 1 2 xs) && all_of is_digit (slice 3 3 xs)) ≡ true
    → read_frame cursor xs s ≡ read_body cursor xs (number_from 0 (slice 3 3 xs) + 11) s
read_frame_lem cursor xs s long digits = rw (read_frame, long, digits) refl

pub less : (a b : ℕ) → a < b → ltb a b ≡ true
less a b h = ground arith

pub not_less : (a b : ℕ) → b ≤ a → ltb a b ≡ false
not_less a b h = ground arith
