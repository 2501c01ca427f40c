-- ===== src/Spool/Recovery/Crash.antt =====
-- Whatever step the process ends in, the next start publishes the job once, with all its bytes.
use retail_print_guard.Base.{
  ◌≡◌, refl, String, Bool, true, false, Option, none, some, arith, ◌&&◌, if◌then◌else◌,
}
use retail_print_guard.Spool.Types.{SessionDescriptor, Manifest, Codec, described}
use retail_print_guard.Spool.Writer.{Writer}
use retail_print_guard.Spool.Publish.{
  Stage, closing, reading_files, writing_manifest, checking_destination, renaming, writing_ready,
  syncing_ready, Directory, Closing, directory_of, manifest_of, file_lines, finalize,
}
use retail_print_guard.Spool.Timeline.{start, breaks}
use retail_print_guard.Spool.Recovery.{recover, rebuild, read_recovery_session, recovery_manifest}

module _ (c : Codec) where
  open c use {dump_manifest, load_manifest, dump_session, load_session, digest}

  -- `json.loads` reads back the manifest and the session document that `json.dumps` has written.
  pub record ReadsBack : Type 0 where
    pub load-dump_manifest :
        (m : Manifest) → load_manifest (dump_manifest m) ≡ some m.session.job_id
    pub load-dump_session : (d : SessionDescriptor) → load_session (dump_session d) ≡ described d

  -- A published directory of the job of `w`: it has its final name, its marker has the hash of its
  -- manifest, and the captured files are what `w` has written.
  pub record IsPublished (w : Writer c) (dir : Directory c) : Type 0 where
    pub final : dir.is_partial ≡ false
    pub marked :
        (m : Manifest) × (dir.manifest ≡ some (dump_manifest m))
        × (dir.ready
            ≡ some (record {
              schema_version = 1;
              job_id = w.descriptor.job_id;
              manifest_sha256 = digest (dump_manifest m);
            }))
    pub client_kept : dir.client_raw ≡ some w.raw.client
    pub device_kept : dir.device_raw ≡ some w.raw.device
    pub timeline_kept : dir.timeline ≡ (directory_of c w).timeline

  -- The directory `dir` with the manifest `m` and the marker for it, under its final name.
  abbrev published : Manifest → String → Directory c → Directory c
  published m job_id dir = record dir {
    is_partial = false;
    manifest = some (dump_manifest m);
    ready = some (record {
      schema_version = 1;
      job_id = job_id;
      manifest_sha256 = digest (dump_manifest m);
    });
  }

  module _ (laws : ReadsBack) (k : Closing c) (w : Writer c) (now spare : String) where
    -- The outcome of the next start, for a directory that `finalize` has left: it raises where the
    -- directory still has its partial name and the final one is occupied, and publishes otherwise.
    abbrev pub Recovers : Directory c → Type 0
    Recovers left =
        (dir : Directory c) × ((occupied : Bool)
          → recover c occupied now spare left
            ≡ (if occupied && left.is_partial then none else some dir))
        × IsPublished w dir
        × ((taken : Bool) (now' spare' : String) → recover c taken now' spare' dir ≡ some dir)

    session_of_writer :
        w.session_file ≡ dump_session w.descriptor
        → read_recovery_session c now (directory_of c w) ≡ some w.descriptor
    unfolding read_recovery_session
    session_of_writer whole = rw (whole, laws.load-dump_session w.descriptor)

    rebuilds :
        w.session_file ≡ dump_session w.descriptor
        → breaks c (file_lines c w) start ≡ false
        → (occupied : Bool)
        → recover c occupied now spare (directory_of c w) ≡ (
            if occupied && true
            then none
            else some (
                published
                  (recovery_manifest c w.descriptor now (directory_of c w))
                  w.descriptor.job_id
                  (directory_of c w)))
    unfolding recover rebuild
    rebuilds whole caught true = rw (session_of_writer whole, caught) refl
    rebuilds whole caught false = rw (session_of_writer whole, caught) refl

    without_manifest :
        w.session_file ≡ dump_session w.descriptor
        → breaks c (file_lines c w) start ≡ false
        → Recovers (directory_of c w)
    unfolding recover
    without_manifest whole caught =
        let m = recovery_manifest c w.descriptor now (directory_of c w) in
        let dir = published m w.descriptor.job_id (directory_of c w) in
        (
          dir,
          rebuilds whole caught,
          record {
            final = refl;
            marked = (m, refl, refl);
            client_kept = refl;
            device_kept = refl;
            timeline_kept = refl;
          },
          λ taken now' spare'. refl,
        )

    with_manifest :
        (named : Bool)
        → Recovers (record (directory_of c w) {
          is_partial = named;
          manifest = some (dump_manifest (manifest_of c w k));
        })
    unfolding recover manifest_of
    with_manifest named =
        let m = manifest_of c w k in
        (
          published m w.descriptor.job_id (directory_of c w),
          λ occupied. rw (laws.load-dump_manifest m, recover) (ground arith),
          record {
            final = refl;
            marked = (m, refl, refl);
            client_kept = refl;
            device_kept = refl;
            timeline_kept = refl;
          },
          λ taken now' spare'. refl,
        )

    abbrev ready_directory : Directory c
    ready_directory = published (manifest_of c w k) w.descriptor.job_id (directory_of c w)

    with_ready : Recovers ready_directory
    unfolding recover manifest_of
    with_ready = (
      ready_directory,
      λ occupied. ground arith,
      record {
        final = refl;
        marked = (manifest_of c w k, refl, refl);
        client_kept = refl;
        device_kept = refl;
        timeline_kept = refl;
      },
      λ taken now' spare'. refl,
    )

    -- Wherever an error, the end of the process or an occupied final name (`taken`) cuts `finalize`
    -- short, and when it is not cut short, the next start leaves the job published: under its final
    -- name, with a marker that has the number of the job and the hash of the manifest that lies
    -- there, and with the captured bytes and the timeline as the writer has left them. A further
    -- start changes nothing. The one exception is stated too: that next start raises, and publishes
    -- nothing, just if the directory still has its partial name and the final one is occupied then.
    -- (The session file is the dump of the descriptor, what was dumped is read back, and reading the
    -- timeline raises nothing that the inspection does not catch.)
    pub crash_recovery :
        (fault : Option Stage) (taken : Bool)
        → w.session_file ≡ dump_session w.descriptor
        → breaks c (file_lines c w) start ≡ false
        → Recovers (finalize c fault taken k w).1
    unfolding finalize
    crash_recovery none true whole caught = with_manifest true
    crash_recovery none false whole caught = with_ready
    crash_recovery (some closing) taken whole caught = without_manifest whole caught
    crash_recovery (some reading_files) taken whole caught = without_manifest whole caught
    crash_recovery (some writing_manifest) taken whole caught = without_manifest whole caught
    crash_recovery (some checking_destination) taken whole caught = with_manifest true
    crash_recovery (some renaming) true whole caught = with_manifest true
    crash_recovery (some renaming) false whole caught = with_manifest true
    crash_recovery (some writing_ready) true whole caught = with_manifest true
    crash_recovery (some writing_ready) false whole caught = with_manifest false
    crash_recovery (some syncing_ready) true whole caught = with_manifest true
    crash_recovery (some syncing_ready) false whole caught = with_ready
