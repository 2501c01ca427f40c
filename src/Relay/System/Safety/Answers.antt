-- ===== src/Relay/System/Safety/Answers.antt =====
-- What the writer thread publishes, given what its writer holds.
use retail_print_guard.Base.{
  ◌≡◌, refl, sym, String, Bool, true, Option, some, List, [], ◌∷◌, ◌++◌, arith, is_empty,
  str_eq_iff,
}
use retail_print_guard.Spool.Types.{PerDirection, Bytes, Manifest, Codec}
use retail_print_guard.Spool.Writer.{Writer}
use retail_print_guard.Spool.Publish.{Stage, Closing, Directory, is_complete, manifest_of, finalize}
use retail_print_guard.Spool.Worker.{Answer, published}
use retail_print_guard.Relay.System.Safety.Queue.{IsSafe, SafeIf, clean}

is_empty-append {ℓ} :
    {A : Type ℓ} (xs ys : List A) → is_empty (xs ++ ys) ≡ true → is_empty xs ≡ true
is_empty-append [] ys h = refl
is_empty-append (x ∷ xs) ys h = h

module _ (c : Codec) where
  open c use {dump_manifest, digest}

  -- A published directory: its manifest has the hash that was answered, and if the manifest says
  -- COMPLETE the two raw files are the received bytes.
  pub record IsFaithful (received : PerDirection Bytes) (sha256 : String) (dir : Directory c)
      : Type 0 where
    pub manifest : Manifest
    pub there : dir.manifest ≡ some (dump_manifest manifest)
    pub hashed : sha256 ≡ digest (dump_manifest manifest)
    pub client_complete : manifest.status ≡ "COMPLETE" → dir.client_raw ≡ some received.client
    pub device_complete : manifest.status ≡ "COMPLETE" → dir.device_raw ≡ some received.device

  abbrev pub GoodAnswer : PerDirection Bytes → Answer c → Type 0
  GoodAnswer received (published id sha256 dir) = IsFaithful received sha256 dir
  GoodAnswer received _ = Unit

  abbrev pub NotPublished : Answer c → Type 0
  NotPublished (published id sha256 dir) = ⊥
  NotPublished _ = Unit

  complete_facts :
      (w : Writer c) (k : Closing c)
      → is_complete c w k ≡ true
      → (is_empty w.errors ≡ true)
        × (k.summary.observed_chunks.client ≡ w.captured_chunks.client)
        × (k.summary.observed_chunks.device ≡ w.captured_chunks.device)
  unfolding is_complete
  complete_facts w k h = (
    is_empty-append w.errors (k.capture_errors ++ k.summary.transport_errors) (ground arith),
    ground arith,
    ground arith,
  )

  complete_of_status :
      (w : Writer c) (k : Closing c)
      → (manifest_of c w k).status ≡ "COMPLETE"
      → is_complete c w k ≡ true
  unfolding manifest_of
  complete_of_status w k h = ground (arith, str_eq_iff "PARTIAL" "COMPLETE")

  complete_raw :
      (w : Writer c) (k : Closing c) (received : PerDirection Bytes)
      → SafeIf (clean c (some w)) k.summary.observed_chunks received
      → (manifest_of c w k).status ≡ "COMPLETE"
      → (w.raw.client ≡ received.client) × (w.raw.device ≡ received.device)
  complete_raw w k received safe status =
      let (no_errors, client, device) = complete_facts w k (complete_of_status w k status) in
      let safe' : IsSafe _ k.summary.observed_chunks received = rw no_errors at safe in
      (safe'.client_bytes (sym client), safe'.device_bytes (sym device))

  pub finalize-IsFaithful :
      (fault : Option Stage) (taken : Bool) (k : Closing c) (w : Writer c)
      (received : PerDirection Bytes) {sha256 : String} {dir : Directory c}
      → SafeIf (clean c (some w)) k.summary.observed_chunks received
      → finalize c fault taken k w ≡ (some sha256, dir)
      → IsFaithful received sha256 dir
  unfolding finalize
  finalize-IsFaithful fault taken k w received safe h = record {
    manifest = manifest_of c w k;
    there = ground arith;
    hashed = ground arith;
    client_complete = λ status. ground (arith, complete_raw w k received safe status);
    device_complete = λ status. ground (arith, complete_raw w k received safe status);
  }
