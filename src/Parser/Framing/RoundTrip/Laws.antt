-- ===== src/Parser/Framing/RoundTrip/Laws.antt =====
-- One round of `frame_stream` in parser/rch.py on an encoded message.
use retail_print_guard.Base.{
  ℕ, suc, ◌+◌, ◌-◌, ◌/◌, ◌%◌, ◌<◌, true, some, List, [], ◌∷◌, ◌++◌, length, ◌≡◌, refl, sym, ap, ◌∙◌,
  subst, length-append, take, arith, append_assoc,
}
use retail_print_guard.Base.Int.{pos, eqb_ℤ}
use retail_print_guard.Parser.Framing.{
  Frame, FramedStream, stops, moves, bcc, is_digit, drop, byte_at, read_frame, read_body, read_raw,
  number_from, add_frame, frame_of, scan,
}
use retail_print_guard.Parser.Framing.RoundTrip.{Message, body, trailer, encode, IsMessage, framed}
use retail_print_guard.Parser.Framing.RoundTrip.Checksum.{
  all_below_sound, bcc_byte, reads_back, reads_back_table, matched,
}
use retail_print_guard.Parser.Framing.RoundTrip.Rounds.{
  take-append, drop-append, byte_at-append, read_raw_lem, read_body_lem, read_frame_lem, less,
  not_less,
}

module _ (m : Message) (ok : IsMessage m) where
  abbrev pub size : ℕ
  size = length m.frame_data + 11

  length-body : length (body m) ≡ length m.frame_data + 8
  length-body = omega (arith, length-append m.frame_data (m.sequence ∷ []))

  pub length-encode : length (encode m) ≡ size
  length-encode = omega (arith, length-body, length-append (body m) (trailer m))

  checksum : reads_back (bcc (body m)) ≡ true
  checksum =
      all_below_sound 256 reads_back (bcc (body m)) reads_back_table
        (bcc_byte 0 (body m) (omega arith) ok.bytes)

  body_size : length (body m) ≡ size - 3
  body_size = omega (arith, length-body)

  taken : take (size - 3) (encode m) ≡ body m
  taken = subst (λ n. take n (encode m) ≡ body m) body_size (take-append (body m) (trailer m))

  read_raw-encode :
      (cursor : ℕ) (s : FramedStream)
      → read_raw cursor (encode m) size s ≡ moves size (add_frame cursor (encode m) size true s)
  read_raw-encode cursor s =
      let (e, (parsed, equal)) = matched _ (bcc (body m)) checksum in
      read_raw_lem cursor size _ _ (encode m) s e
        (byte_at-append (size - 1) 2 (body m) (trailer m) (omega (arith, length-body)))
        (byte_at-append (size - 3) 0 (body m) (trailer m) (omega (arith, length-body)))
        (byte_at-append (size - 2) 1 (body m) (trailer m) (omega (arith, length-body))) parsed
        (subst (λ l. eqb_ℤ (pos (bcc l)) e ≡ true) (sym taken) equal)

  length_digits :
      number_from 0 (
          (48 + length m.frame_data / 100)
          ∷ (48 + length m.frame_data / 10 % 10)
          ∷ (48 + length m.frame_data % 10)
          ∷ [])
        + 11
      ≡ size
  length_digits = omega (arith, ok.short)

  digits :
      (is_digit (48 + length m.frame_data / 100) ≡ true)
      × ((is_digit (48 + length m.frame_data / 10 % 10) ≡ true)
          × (is_digit (48 + length m.frame_data % 10) ≡ true))
  digits = (ground (arith, ok.short), (ground (arith, ok.short), ground (arith, ok.short)))

  read_frame-encode :
      (cursor : ℕ) (rest : List ℕ) (s : FramedStream)
      → read_frame cursor (encode m ++ rest) s
        ≡ moves size (add_frame cursor (encode m) size true s)
  read_frame-encode cursor rest s =
      let all = length-append (encode m) rest in
      read_frame_lem cursor (encode m ++ rest) s (not_less _ 6 (omega (arith, all, length-encode)))
        (rw (ok.high_digit, ok.low_digit, digits.0, digits.1.0, digits.1.1) refl)
      ∙ ap (λ t. read_body cursor (encode m ++ rest) t s) length_digits
      ∙ read_body_lem cursor size (encode m ++ rest) s
          (not_less _ size (omega (arith, all, length-encode)))
      ∙ ap (λ raw. read_raw cursor raw size s)
          (subst (λ n. take n (encode m ++ rest) ≡ encode m) length-encode
            (take-append (encode m) rest))
      ∙ read_raw-encode cursor s

  abbrev front : List ℕ
  front =
      2
      ∷ m.address_high
      ∷ m.address_low
      ∷ (48 + length m.frame_data / 100)
      ∷ (48 + length m.frame_data / 10 % 10)
      ∷ (48 + length m.frame_data % 10)
      ∷ m.frame_class
      ∷ m.frame_data

  data_lem : take (size - 11) (drop 7 (encode m)) ≡ m.frame_data
  data_lem =
      subst (λ l. take (size - 11) l ≡ m.frame_data)
        (sym (append_assoc m.frame_data (m.sequence ∷ []) (trailer m)))
        (subst (λ n. take n (m.frame_data ++ (m.sequence ∷ trailer m)) ≡ m.frame_data) (omega arith)
          (take-append m.frame_data (m.sequence ∷ trailer m)))

  front_lem : encode m ≡ front ++ (m.sequence ∷ trailer m)
  front_lem =
      ap
        (λ l.
          2
          ∷ m.address_high
          ∷ m.address_low
          ∷ (48 + length m.frame_data / 100)
          ∷ (48 + length m.frame_data / 10 % 10)
          ∷ (48 + length m.frame_data % 10)
          ∷ m.frame_class
          ∷ l)
        (append_assoc m.frame_data (m.sequence ∷ []) (trailer m))

  sequence_lem : byte_at (size - 4) (encode m) ≡ m.sequence
  sequence_lem =
      subst (λ l. byte_at (size - 4) l ≡ m.sequence) (sym front_lem)
        (byte_at-append (size - 4) 0 front (m.sequence ∷ trailer m) (omega arith))

  abbrev pieces : ℕ → ℕ → List ℕ → ℕ → Frame
  pieces cursor id bytes last = record {
    frame_id = id;
    offset = cursor;
    raw = encode m;
    address = m.address_high ∷ m.address_low ∷ [];
    frame_class = m.frame_class;
    frame_data = bytes;
    sequence = last;
    bcc_valid = true;
  }

  frame_of-encode : (cursor id : ℕ) → frame_of cursor (encode m) size true id ≡ framed cursor id m
  frame_of-encode cursor id =
      ap (λ bytes. pieces cursor id bytes (byte_at (size - 4) (encode m))) data_lem
      ∙ ap (pieces cursor id m.frame_data) sequence_lem

  abbrev pub with_frame : ℕ → FramedStream → FramedStream
  with_frame cursor s = record {
    frames = s.frames ++ (framed cursor (suc (length s.frames)) m ∷ []);
    ack_count = s.ack_count;
    issues = s.issues;
    truncated = s.truncated;
  }

  add_frame-encode :
      (cursor : ℕ) (s : FramedStream)
      → length s.frames < 8192
      → add_frame cursor (encode m) size true s ≡ with_frame cursor s
  add_frame-encode cursor s room =
      rw (add_frame, less (length s.frames) 8192 room)
        (ap
          (λ f. record {
            frames = s.frames ++ (f ∷ []);
            ack_count = s.ack_count;
            issues = s.issues;
            truncated = s.truncated;
          })
          (frame_of-encode cursor (suc (length s.frames))))

  pub round-encode :
      (cursor : ℕ) (rest : List ℕ) (s : FramedStream)
      → length s.frames < 8192
      → read_frame cursor (encode m ++ rest) s ≡ moves size (with_frame cursor s)
  round-encode cursor rest s room =
      read_frame-encode cursor rest s ∙ ap (λ t. moves size t) (add_frame-encode cursor s room)

  pub scan-encode :
      (fuel cursor : ℕ) (rest : List ℕ) (s : FramedStream)
      → length s.frames < 8192
      → scan (suc fuel) cursor (encode m ++ rest) s
        ≡ scan fuel (cursor + size) rest (with_frame cursor s)
  unfolding scan
  scan-encode fuel cursor rest s room =
      ap
        (λ r. elim r [
          | stops t ↦ some t
          | moves n t ↦ scan fuel (cursor + n) (drop n (encode m ++ rest)) t
        ])
        (round-encode cursor rest s room)
      ∙ (ap (λ bytes. scan fuel (cursor + size) bytes (with_frame cursor s))
          (subst (λ n. drop n (encode m ++ rest) ≡ rest) length-encode
            (drop-append (encode m) rest)))
