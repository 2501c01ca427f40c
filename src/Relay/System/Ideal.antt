-- ===== src/Relay/System/Ideal.antt =====
-- What a writer would hold if every event reached the disk, and how `append` follows it.
use retail_print_guard.Base.{
  ℕ, ◌+◌, ◌≡◌, true, none, List, [], ◌∷◌, ◌++◌, append-nil, arith, str_eq, is_empty, if◌then◌else◌,
}
use retail_print_guard.Spool.Types.{PerDirection, at, put, everywhere, Bytes, CaptureEvent, Codec}
use retail_print_guard.Spool.Writer.{Writer, Disk, append}

pub record Ideal : Type 0 where
  pub chunks : PerDirection ℕ
  pub raw : PerDirection Bytes

abbrev pub nothing_yet : Ideal
nothing_yet = record { chunks = everywhere 0; raw = everywhere [] }

unfoldable pub play : CaptureEvent → Ideal → Ideal
play e i = record {
  chunks =
      if str_eq e.kind "data"
      then put i.chunks e.direction (at i.chunks e.direction + 1)
      else i.chunks;
  raw = put i.raw e.direction (at i.raw e.direction ++ e.payload);
}

pub is_empty_nil {ℓ} : {A : Type ℓ} (ys xs : List A) → is_empty xs ≡ true → ys ++ xs ≡ ys
is_empty_nil ys [] h = append-nil ys
is_empty_nil ys (x ∷ xs) h = cc

module _ (c : Codec) where
  abbrev pub ideal_of : Writer c → Ideal
  ideal_of w = record { chunks = w.captured_chunks; raw = w.raw }

  -- An `append` that does not raise does what it should.
  pub ideal_of-append :
      (disk : Disk c) (e : CaptureEvent) (w w' : Writer c)
      → append c disk e w ≡ (none, w')
      → ideal_of w' ≡ play e (ideal_of w)
  unfolding append play
  ideal_of-append disk e w w' h = ground (arith, is_empty_nil (at w.raw e.direction) e.payload)

  pub errors-append :
      (disk : Disk c) (e : CaptureEvent) (w : Writer c) → (append c disk e w).1.errors ≡ w.errors
  unfolding append
  errors-append disk e w = ground arith
