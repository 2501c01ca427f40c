-- ===== src/Parser/Framing/RoundTrip/Checksum.antt =====
-- The checksum of a message in parser/rch.py: it is a byte, and its two digits give it back.
use Prim.Native.Nat.{bit_xor}
use retail_print_guard.Base.{
  ℕ, zero, suc, ◌/◌, ◌%◌, ◌<◌, Bool, true, false, ◌&&◌, Option, none, some, List, [], ◌∷◌, All, ◌≡◌,
  refl, ltb, arith,
}
use retail_print_guard.Base.Int.{ℤ, pos, eqb_ℤ}
use retail_print_guard.Parser.Framing.{expected_bcc, bcc_from}
use retail_print_guard.Parser.Framing.RoundTrip.{hex_digit}

abbrev pub all_below : ℕ → (ℕ → Bool) → Bool
all_below zero test = true
all_below (suc n) test = test n && all_below n test

pub all_below_sound :
    (n : ℕ) (test : ℕ → Bool) (x : ℕ) → all_below n test ≡ true → x < n → test x ≡ true
all_below_sound zero test x h lt = absurd (omega arith)
all_below_sound (suc n) test x h lt = ground (arith, all_below_sound n test x)

xor_table : all_below 256 (λ a. all_below 256 (λ b. ltb (bit_xor a b) 256)) ≡ true
xor_table = refl

xor_byte : (a b : ℕ) → a < 256 → b < 256 → bit_xor a b < 256
xor_byte a b ha hb = ground (
  arith,
  all_below_sound 256 (λ c. ltb (bit_xor a c) 256) b
      (all_below_sound 256 (λ c. all_below 256 (λ d. ltb (bit_xor c d) 256)) a xor_table ha) hb,
)

pub bcc_byte :
    (n : ℕ) (bytes : List ℕ) → n < 256 → All (λ b. b < 256) bytes → bcc_from n bytes < 256
bcc_byte n [] h hs = h
bcc_byte n (b ∷ bytes) h hs = bcc_byte (bit_xor n b) bytes (xor_byte n b h hs.0) hs.1

-- Two hexadecimal digits give back the byte.
abbrev pub reads_back : ℕ → Bool
reads_back c = elim (expected_bcc (hex_digit (c / 16)) (hex_digit (c % 16))) [
  | none ↦ false
  | some e ↦ eqb_ℤ (pos c) e
]

pub reads_back_table : all_below 256 reads_back ≡ true
reads_back_table = refl

pub matched :
    (o : Option ℤ) (c : ℕ)
    → (elim o [ none ↦ false | some e ↦ eqb_ℤ (pos c) e ]) ≡ true
    → (e : ℤ) × ((o ≡ some e) × (eqb_ℤ (pos c) e ≡ true))
matched none c h = ground (arith, h)
matched (some e) c h = (e, (refl, h))
