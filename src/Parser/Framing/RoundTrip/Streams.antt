-- ===== src/Parser/Framing/RoundTrip/Streams.antt =====
-- `frame_stream` of parser/rch.py on a stream of messages.
use retail_print_guard.Base.{
  ℕ, zero, suc, ◌+◌, ◌≤◌, false, some, List, [], ◌∷◌, length, All, ◌≡◌, refl, ap, ◌∙◌,
  length-append, take, arith,
}
use retail_print_guard.Parser.Framing.{FramedStream, acknowledge, finish, scan, frame_stream}
use retail_print_guard.Parser.Framing.RoundTrip.{
  encode, Item, ack, sends, IsSound, stream, framed, frames_from, acks_from,
}
use retail_print_guard.Parser.Framing.RoundTrip.Rounds.{not_less}
use retail_print_guard.Parser.Framing.RoundTrip.Laws.{size, length-encode, with_frame, scan-encode}

take_all : (n : ℕ) (xs : List ℕ) → length xs ≤ n → take n xs ≡ xs
take_all zero [] h = refl
take_all zero (x ∷ xs) h = absurd (omega arith)
take_all (suc n) [] h = refl
take_all (suc n) (x ∷ xs) h = ap (λ l. x ∷ l) (take_all n xs (omega arith))

abbrev pub sent : List Item → ℕ
sent [] = 0
sent (ack ∷ items) = sent items
sent (sends m ∷ items) = suc (sent items)

abbrev reads : FramedStream → ℕ → List Item → FramedStream
reads s cursor items = record {
  frames = frames_from s.frames cursor items;
  ack_count = acks_from s.ack_count items;
  issues = s.issues;
  truncated = s.truncated;
}

scan-stream :
    (fuel cursor : ℕ) (items : List Item) (s : FramedStream)
    → length (stream items) ≤ fuel
    → length s.frames + sent items ≤ 8192
    → All IsSound items
    → scan fuel cursor (stream items) s ≡ some (reads s cursor items)
unfolding scan
scan-stream fuel cursor [] s le room ok = refl
scan-stream zero cursor (ack ∷ items) s le room ok = absurd (omega arith)
scan-stream (suc fuel) cursor (ack ∷ items) s le room ok =
    scan-stream fuel (cursor + 1) items (acknowledge s) (omega arith) room ok.1
scan-stream zero cursor (sends m ∷ items) s le room ok = absurd (omega arith)
scan-stream (suc fuel) cursor (sends m ∷ items) s le room ok =
    scan-encode m ok.0 fuel cursor (stream items) s (omega arith)
    ∙ scan-stream fuel (cursor + size m ok.0) items (with_frame m ok.0 cursor s)
        (omega (arith, le, length-append (encode m) (stream items), length-encode m ok.0))
        (omega (arith, room, length-append s.frames (framed cursor (suc (length s.frames)) m ∷ [])))
        ok.1

-- A stream of at most 8192 messages, with acknowledgements between them and no more than 16 MiB long, is read
-- back: framing returns a frame with a valid checksum for each message, with its address, class, data
-- and sequence, at its offset and in order; it counts the acknowledgements, and reports no issue.
pub frame_stream-stream :
    (items : List Item)
    → All IsSound items
    → sent items ≤ 8192
    → length (stream items) ≤ 16777216
    → frame_stream (stream items)
      ≡ some record {
        frames = frames_from [] 0 items;
        ack_count = acks_from 0 items;
        issues = [];
        truncated = false;
      }
unfolding frame_stream
frame_stream-stream items ok few short =
    let too_long = not_less 16777216 (length (stream items)) short in
    let view : take 16777216 (stream items) ≡ stream items =
      take_all 16777216 (stream items) short in
    rw (view, too_long)
      (ap (finish false) (
        scan-stream (length (stream items)) 0 items
          record { frames = []; ack_count = 0; issues = []; truncated = false } (omega arith)
          (omega arith) ok))
