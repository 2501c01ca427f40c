-- ===== src/Spool/Worker.antt =====
-- `CaptureManager._worker` of proxy/spool.py: the thread that takes the commands from the queue.
use retail_print_guard.Base.{String, Bool, true, false, Option, none, some, List, [], ◌∷◌, ◌++◌}
use retail_print_guard.Base.Dict.{Dict, lookup, insert, erase}
use retail_print_guard.Spool.Types.{CaptureEvent, Codec}
use retail_print_guard.Spool.Writer.{Disk, Writer, SpoolError, fresh, append, mark_error}
use retail_print_guard.Spool.Publish.{Stage, Directory, finalize}
use retail_print_guard.Spool.Session.{
  Command, open_command, event_command, close_command, stop_command,
}

module _ (c : Codec) where
  -- How the file system answers while one command is handled.
  pub record World : Type 0 where
    pub fsync_each_event : Bool
    pub open_error : Option String
    pub disk : Disk c
    pub fault : Option Stage
    pub taken : Bool

  -- What a future is completed with.
  pub data Answer : Type 0 where
    opened : String → Answer
    open_failed : String → Answer
    published : String → String → Directory c → Answer
    close_failed : String → Directory c → Answer
    unavailable : String → Answer
    stopped : Answer

  -- `writers` is the local of the loop, `failures` the callbacks that `_threadsafe_failure` has put
  -- to the event loop, `answers` what the futures were completed with, the newest first.
  pub record Worker : Type 0 where
    pub writers : Dict (Writer c)
    pub failures : List (String × String)
    pub answers : List Answer
    pub finished : Bool

  abbrev notify : String → String → Worker → Worker
  notify id message k = record k { failures = k.failures ++ (id, message) ∷ [] }

  -- `describe` is the text of an exception.
  module _ (describe : SpoolError → String) where
    -- The branch for an event, on its writer: what it leaves, and the message if `append` raised.
    unfoldable pub write_event : Disk c → CaptureEvent → Writer c → Option String × Writer c
    write_event disk e w =
        let (error, w') = append c disk e w in
        elim error [
          | none ↦ (none, w')
          | some x ↦ (some (describe x), mark_error c (describe x) w')
        ]

    unfoldable pub process : World → Command c → Worker → Worker
    process world (open_command d waited) k = elim world.open_error [
      | none ↦
          let opened_worker = record k {
            writers = insert d.session_id (fresh c d world.fsync_each_event) k.writers;
          } in
          elim waited [
            | true ↦ record opened_worker { answers = opened d.session_id ∷ k.answers }
            | false ↦ opened_worker
          ]
      | some error ↦
          let failed_worker = notify d.session_id error k in
          elim waited [
            | true ↦ record failed_worker { answers = open_failed d.session_id ∷ k.answers }
            | false ↦ failed_worker
          ]
    ]
    process world (event_command id e) k = elim (lookup id k.writers) [
      | none ↦ notify id "capture writer is unavailable" k
      | some w ↦
          let (message, w') = write_event world.disk e w in
          let kept = record k { writers = insert id w' k.writers } in
          elim message [ none ↦ kept | some text ↦ notify id text kept ]
    ]
    process world (close_command id closing) k = elim (lookup id k.writers) [
      | none ↦ record k { answers = unavailable id ∷ k.answers }
      | some w ↦
          let (sha256, dir) = finalize c world.fault world.taken closing w in
          let answer : Answer = elim sha256 [
            | none ↦ close_failed id dir
            | some hash ↦ published id hash dir
          ] in
          record k { writers = erase id k.writers; answers = answer ∷ k.answers }
    ]
    process world stop_command k = record k {
      writers = [];
      answers = stopped ∷ k.answers;
      finished = true;
    }
