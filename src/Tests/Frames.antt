-- ===== src/Tests/Frames.antt =====
-- A stream of two messages and an acknowledgement, and one with noise before a message.
use retail_print_guard.Base.{
  ℕ, ◌≤◌, false, Option, none, some, List, [], ◌∷◌, ◌++◌, ◌≡◌, refl, arith, length, map,
}
use retail_print_guard.Parser.Framing.{FramedStream, Issue, frame_stream}
use retail_print_guard.Parser.Framing.Bounds.{frame_stream-IsBounded}
use retail_print_guard.Parser.Framing.RoundTrip.{
  Message, IsMessage, Item, ack, sends, stream, frames_from, acks_from,
}
use retail_print_guard.Parser.Framing.RoundTrip.Streams.{frame_stream-stream}

-- Two messages to the address 01.
abbrev first_message : Message
first_message = record {
  address_high = 48;
  address_low = 49;
  frame_class = 78;
  frame_data = 61 ∷ 67 ∷ 49 ∷ [];
  sequence = 48;
}

abbrev second_message : Message
second_message = record {
  address_high = 48;
  address_low = 49;
  frame_class = 78;
  frame_data = 61 ∷ 75 ∷ [];
  sequence = 49;
}

first_IsMessage : IsMessage first_message
first_IsMessage = record {
  high_digit = refl;
  low_digit = refl;
  short = omega arith;
  bytes = (
    omega arith,
    (
      omega arith,
      (
        omega arith,
        (
          omega arith,
          (
            omega arith,
            (
              omega arith,
              (omega arith, (omega arith, (omega arith, (omega arith, (omega arith, tt))))),
            ),
          ),
        ),
      ),
    ),
  );
}

abbrev items : List Item
items = sends first_message ∷ ack ∷ sends second_message ∷ []

abbrev noise : List ℕ
noise = 7 ∷ 8 ∷ 6 ∷ 2 ∷ 48 ∷ []

abbrev issues_of : Option FramedStream → List Issue
issues_of none = []
issues_of (some s) = s.issues

noise_issues :
    issues_of (frame_stream noise) ≡ Issue.unframed_bytes 0 2 ∷ Issue.truncated_header 3 2 ∷ []
unfolding frame_stream
noise_issues = refl

abbrev offsets_of : Option FramedStream → List ℕ
offsets_of none = []
offsets_of (some s) = map (λ f. f.offset) s.frames

offsets : offsets_of (frame_stream (noise ++ stream items)) ≡ 5 ∷ 20 ∷ []
unfolding frame_stream
offsets = refl

second_IsMessage : IsMessage second_message
second_IsMessage = record {
  high_digit = refl;
  low_digit = refl;
  short = omega arith;
  bytes = (
    omega arith,
    (
      omega arith,
      (
        omega arith,
        (
          omega arith,
          (
            omega arith,
            (omega arith, (omega arith, (omega arith, (omega arith, (omega arith, tt))))),
          ),
        ),
      ),
    ),
  );
}

frame_stream-stream_example :
    frame_stream (stream items)
    ≡ some record {
      frames = frames_from [] 0 items;
      ack_count = acks_from 0 items;
      issues = [];
      truncated = false;
    }
frame_stream-stream_example =
    frame_stream-stream items (first_IsMessage, (tt, (second_IsMessage, tt))) (omega arith)
      (omega arith)

frame_stream-IsBounded_example :
    (t : FramedStream) × ((frame_stream noise ≡ some t)
      × ((length t.frames ≤ 8192) × (length t.issues ≤ 1025)))
frame_stream-IsBounded_example = frame_stream-IsBounded noise
