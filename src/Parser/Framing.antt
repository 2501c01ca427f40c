-- ===== src/Parser/Framing.antt =====
-- The framing of parser/rch.py: `frame_stream` and `_bcc`. Bytes are numbers below 256.
pub mod Bounds
pub mod RoundTrip
use Prim.Native.Nat.{bit_xor}
use retail_print_guard.Base.{
  ℕ, zero, suc, ◌+◌, ◌-◌, ◌*◌, Bool, true, false, not, ◌&&◌, ◌||◌, Option, none, some, List, [],
  ◌∷◌, ◌++◌, if◌then◌else◌, ltb, leb, ◌==◌, length, take, all_of,
}
use retail_print_guard.Base.Int.{ℤ, pos, sub_ℕ, eqb_ℤ}

pub data Issue : Type 0 where
  unframed_bytes : (cursor count : ℕ) → Issue
  truncated_header : (cursor count : ℕ) → Issue
  malformed_header : (cursor : ℕ) → Issue
  truncated_frame : (cursor count : ℕ) → Issue
  missing_etx : (cursor : ℕ) → Issue
  malformed_trailer : (cursor : ℕ) → Issue
  bcc_mismatch : (cursor : ℕ) → Issue
  issue_limit_exceeded : Issue
  parser_input_limit_exceeded : Issue

-- `address`, `frame_class` and `sequence` are the bytes that the source decodes as latin-1.
pub record Frame : Type 0 where
  pub frame_id : ℕ
  pub offset : ℕ
  pub raw : List ℕ
  pub address : List ℕ
  pub frame_class : ℕ
  pub frame_data : List ℕ
  pub sequence : ℕ
  pub bcc_valid : Bool

pub record FramedStream : Type 0 where
  pub frames : List Frame
  pub ack_count : ℕ
  pub issues : List Issue
  pub truncated : Bool

abbrev pub drop {ℓ} : {A : Type ℓ} → ℕ → List A → List A
drop zero xs = xs
drop (suc n) [] = []
drop (suc n) (x ∷ xs) = drop n xs

-- `xs[low : low + count]`
abbrev pub slice {ℓ} : {A : Type ℓ} → ℕ → ℕ → List A → List A
slice low count xs = take count (drop low xs)

-- `xs[i]`, which is only read inside the list.
abbrev pub byte_at : ℕ → List ℕ → ℕ
byte_at i [] = 0
byte_at zero (x ∷ xs) = x
byte_at (suc i) (x ∷ xs) = byte_at i xs

abbrev pub bcc_from : ℕ → List ℕ → ℕ
bcc_from result [] = result
bcc_from result (value ∷ values) = bcc_from (bit_xor result value) values

-- `_bcc`
abbrev pub bcc : List ℕ → ℕ
bcc prefix = bcc_from 0 prefix

abbrev pub is_digit : ℕ → Bool
is_digit c = leb 48 c && leb c 57

-- `int(digits)`
abbrev pub number_from : ℕ → List ℕ → ℕ
number_from n [] = n
number_from n (c ∷ cs) = number_from (n * 10 + (c - 48)) cs

abbrev pub hex_value : ℕ → Option ℕ
hex_value c =
    if is_digit c
    then some (c - 48)
    else if leb 65 c && leb c 70
    then some (c - 55)
    else if leb 97 c && leb c 102
    then some (c - 87)
    else none

abbrev is_space : ℕ → Bool
is_space c = leb 9 c && leb c 13 || c == 32

-- One character that follows a space or a sign.
abbrev single : (ℕ → ℤ) → Option ℕ → Option ℤ
single sign none = none
single sign (some y) = some (sign y)

-- `int(text, 16)` of a text of two characters, of which spaces are stripped and one may be a sign.
abbrev pub hexadecimal : ℕ → ℕ → Option ℤ
hexadecimal a b = elim (hex_value a) [
  | some x ↦ elim (hex_value b) [
    | some y ↦ some (pos (x * 16 + y))
    | none ↦ if is_space b then some (pos x) else none
  ]
  | none ↦
      if is_space a || a == 43
      then single pos (hex_value b)
      else if a == 45
      then single (sub_ℕ 0) (hex_value b)
      else none
]

-- `int(raw[-3:-1].decode("ascii"), 16)`, where `none` is the error.
abbrev pub expected_bcc : ℕ → ℕ → Option ℤ
expected_bcc a b = if ltb a 128 && ltb b 128 then hexadecimal a b else none

abbrev pub add_issue : Issue → FramedStream → FramedStream
add_issue issue s = record {
  frames = s.frames;
  ack_count = s.ack_count;
  issues = if ltb (length s.issues) 1024 then s.issues ++ (issue ∷ []) else s.issues;
  truncated = s.truncated;
}

abbrev pub acknowledge : FramedStream → FramedStream
acknowledge s = record {
  frames = s.frames;
  ack_count = suc s.ack_count;
  issues = s.issues;
  truncated = s.truncated;
}

abbrev pub frame_of : ℕ → List ℕ → ℕ → Bool → ℕ → Frame
frame_of cursor raw total valid id = record {
  frame_id = id;
  offset = cursor;
  raw = raw;
  address = slice 1 2 raw;
  frame_class = byte_at 6 raw;
  frame_data = slice 7 (total - 11) raw;
  sequence = byte_at (total - 4) raw;
  bcc_valid = valid;
}

abbrev pub add_frame : ℕ → List ℕ → ℕ → Bool → FramedStream → FramedStream
add_frame cursor raw total valid s = record {
  frames =
      if ltb (length s.frames) 8192
      then s.frames ++ (frame_of cursor raw total valid (suc (length s.frames)) ∷ [])
      else s.frames;
  ack_count = s.ack_count;
  issues = s.issues;
  truncated = if ltb (length s.frames) 8192 then s.truncated else true;
}

-- What one round of the loop does: it ends, or goes on so many bytes further.
pub data Round : Type 0 where
  stops : FramedStream → Round
  moves : ℕ → FramedStream → Round

-- From the first STX or ACK on, or from the end.
abbrev until_control : List ℕ → ℕ
until_control [] = 0
until_control (b ∷ bs) = let rest = until_control bs in if b == 2 || b == 6 then 0 else suc rest

abbrev pub keep_frame : ℕ → List ℕ → ℕ → FramedStream → Option ℤ → Round
keep_frame cursor raw total s none = moves total (add_issue (Issue.malformed_trailer cursor) s)
keep_frame cursor raw total s (some expected) =
    if eqb_ℤ (pos (bcc (take (total - 3) raw))) expected
    then moves total (add_frame cursor raw total true s)
    else moves total (add_frame cursor raw total false (add_issue (Issue.bcc_mismatch cursor) s))

abbrev pub read_raw : ℕ → List ℕ → ℕ → FramedStream → Round
read_raw cursor raw total s =
    if byte_at (total - 1) raw == 3
    then keep_frame cursor raw total s
        (expected_bcc (byte_at (total - 3) raw) (byte_at (total - 2) raw))
    else moves 1 (add_issue (Issue.missing_etx cursor) s)

abbrev pub read_body : ℕ → List ℕ → ℕ → FramedStream → Round
read_body cursor rest total s =
    if ltb (length rest) total
    then stops (add_issue (Issue.truncated_frame cursor (length rest)) s)
    else read_raw cursor (take total rest) total s

-- The rest of the view begins with STX.
abbrev pub read_frame : ℕ → List ℕ → FramedStream → Round
read_frame cursor rest s =
    if ltb (length rest) 6
    then stops (add_issue (Issue.truncated_header cursor (length rest)) s)
    else if all_of is_digit (slice 1 2 rest) && all_of is_digit (slice 3 3 rest)
    then read_body cursor rest (number_from 0 (slice 3 3 rest) + 11) s
    else moves 1 (add_issue (Issue.malformed_header cursor) s)

unfoldable pub round : ℕ → ℕ → List ℕ → FramedStream → Round
round cursor byte bytes s =
    if byte == 6
    then moves 1 (acknowledge s)
    else if byte == 2
    then read_frame cursor (byte ∷ bytes) s
    else moves (suc (until_control bytes))
        (add_issue (Issue.unframed_bytes cursor (suc (until_control bytes))) s)

-- The loop over what is left of the view; `none` is the end of the fuel.
unfoldable pub scan : ℕ → ℕ → List ℕ → FramedStream → Option FramedStream
unfolding round
scan fuel cursor [] s = some s
scan zero cursor (byte ∷ bytes) s = none
scan (suc fuel) cursor (byte ∷ bytes) s = elim (round cursor byte bytes s) [
  | stops t ↦ some t
  | moves n t ↦ scan fuel (cursor + n) (drop n (byte ∷ bytes)) t
]

abbrev pub set_last : List Issue → List Issue
set_last [] = []
set_last (i ∷ []) = Issue.issue_limit_exceeded ∷ []
set_last (i ∷ j ∷ rest) = i ∷ set_last (j ∷ rest)

abbrev pub limited : List Issue → List Issue
limited issues = if ltb (length issues) 1024 then issues else set_last issues

abbrev pub finished : Bool → FramedStream → FramedStream
finished too_long s = record {
  frames = s.frames;
  ack_count = s.ack_count;
  issues =
      if too_long
      then limited s.issues ++ (Issue.parser_input_limit_exceeded ∷ [])
      else limited s.issues;
  truncated = s.truncated;
}

abbrev pub finish : Bool → Option FramedStream → Option FramedStream
finish too_long none = none
finish too_long (some s) = some (finished too_long s)

-- `frame_stream`. Every round moves on, so one unit of fuel for each byte is enough.
unfoldable pub frame_stream : List ℕ → Option FramedStream
unfolding scan
frame_stream payload =
    let view = take 16777216 payload in
    let too_long = ltb 16777216 (length payload) in
    finish too_long (
      scan (length view) 0 view
        record { frames = []; ack_count = 0; issues = []; truncated = too_long })
