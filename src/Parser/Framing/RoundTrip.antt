-- ===== src/Parser/Framing/RoundTrip.antt =====
-- The messages that `frame_stream` of parser/rch.py reads back: their bytes, and the frames of a
-- stream of messages and acknowledgements.
mod Checksum
mod Rounds
mod Laws
pub mod Streams
use retail_print_guard.Base.{
  ℕ, zero, suc, ◌+◌, ◌-◌, ◌*◌, ◌/◌, ◌%◌, ◌≤◌, ◌<◌, Bool, true, false, List, [], ◌∷◌, ◌++◌, length,
  All, ◌≡◌, if◌then◌else◌, ltb,
}
use retail_print_guard.Parser.Framing.{Frame, bcc, is_digit}

pub record Message : Type 0 where
  pub address_high : ℕ
  pub address_low : ℕ
  pub frame_class : ℕ
  pub frame_data : List ℕ
  pub sequence : ℕ

-- An upper-case hexadecimal digit.
abbrev pub hex_digit : ℕ → ℕ
hex_digit n = if ltb n 10 then 48 + n else 55 + n

-- A message up to its checksum: STX, the address, three digits of the length, the class, the data
-- and the sequence.
abbrev pub body : Message → List ℕ
body m =
    let n = length m.frame_data in
    2
    ∷ m.address_high
    ∷ m.address_low
    ∷ (48 + n / 100)
    ∷ (48 + n / 10 % 10)
    ∷ (48 + n % 10)
    ∷ m.frame_class
    ∷ (m.frame_data ++ (m.sequence ∷ []))

-- The two digits of the checksum, and ETX.
abbrev pub trailer : Message → List ℕ
trailer m = hex_digit (bcc (body m) / 16) ∷ hex_digit (bcc (body m) % 16) ∷ 3 ∷ []

abbrev pub encode : Message → List ℕ
encode m = body m ++ trailer m

pub record IsMessage (m : Message) : Type 0 where
  pub high_digit : is_digit m.address_high ≡ true
  pub low_digit : is_digit m.address_low ≡ true
  pub short : length m.frame_data ≤ 999
  pub bytes : All (λ b. b < 256) (body m)

pub data Item : Type 0 where
  ack : Item
  sends : Message → Item

abbrev pub IsSound : Item → Type 0
IsSound ack = Unit
IsSound (sends m) = IsMessage m

abbrev pub stream : List Item → List ℕ
stream [] = []
stream (ack ∷ items) = 6 ∷ stream items
stream (sends m ∷ items) = encode m ++ stream items

abbrev pub framed : ℕ → ℕ → Message → Frame
framed cursor id m = record {
  frame_id = id;
  offset = cursor;
  raw = encode m;
  address = m.address_high ∷ m.address_low ∷ [];
  frame_class = m.frame_class;
  frame_data = m.frame_data;
  sequence = m.sequence;
  bcc_valid = true;
}

-- The frames so far, and those of the items from the cursor on.
abbrev pub frames_from : List Frame → ℕ → List Item → List Frame
frames_from frames cursor [] = frames
frames_from frames cursor (ack ∷ items) = frames_from frames (cursor + 1) items
frames_from frames cursor (sends m ∷ items) =
    frames_from (frames ++ (framed cursor (suc (length frames)) m ∷ []))
      (cursor + (length m.frame_data + 11)) items

abbrev pub acks_from : ℕ → List Item → ℕ
acks_from n [] = n
acks_from n (ack ∷ items) = acks_from (suc n) items
acks_from n (sends m ∷ items) = acks_from n items
