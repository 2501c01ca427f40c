-- ===== src/Relay/System/Safety/Handling.antt =====
-- The writer thread keeps the queue good, whatever the file system answers.
use retail_print_guard.Base.{
  ℕ, ◌≡◌, refl, ap, shorten, ◌⊎◌, inl, inr, String, Bool, true, false, Option, none, some, List, [],
  ◌∷◌, ◌++◌, arith, All, is_empty, if◌then◌else◌, Option-cases, str_eq, str_eq_refl,
}
use retail_print_guard.Base.Dict.{lookup, insert, erase, lookup-insert, lookup-erase}
use retail_print_guard.Spool.Types.{PerDirection, Bytes, SessionDescriptor, CaptureEvent, Codec}
use retail_print_guard.Spool.Writer.{Writer, Disk, SpoolError, fresh, append, mark_error}
use retail_print_guard.Spool.Publish.{Directory, Closing, finalize}
use retail_print_guard.Spool.Session.{
  Command, open_command, event_command, close_command, stop_command,
}
use retail_print_guard.Spool.Worker.{
  World, Worker, Answer, published, close_failed, unavailable, write_event, process,
}
use retail_print_guard.Relay.System.Ideal.{
  Ideal, nothing_yet, play, ideal_of, ideal_of-append, errors-append,
}
use retail_print_guard.Relay.System.Safety.Queue.{SafeIf, play_on, clean, NoClose, Good, weaken}
use retail_print_guard.Relay.System.Safety.Answers.{GoodAnswer, NotPublished, finalize-IsFaithful}

module _ (c : Codec) (describe : SpoolError → String) (id : String) where
  abbrev pub contents : Worker c → Option Ideal
  contents k = clean c (lookup id k.writers)

  -- The writer thread on one command: the rest of the queue stays good, and so do the answers.
  pub record Handles (seen : PerDirection ℕ) (received : PerDirection Bytes) (q : List (Command c))
      (k : Worker c) : Type 0 where
    pub good : Good c id seen received q (contents k)
    pub answers : All (GoodAnswer c received) k.answers

  not_empty : (xs : List String) (x : String) → is_empty (xs ++ x ∷ []) ≡ false
  not_empty [] x = refl
  not_empty (y ∷ ys) x = refl

  play_on-if :
      (e : CaptureEvent) (b : Bool) (i i' : Ideal)
      → i' ≡ play e i
      → (if b then some i' else none) ≡ play_on e (if b then some i else none)
  play_on-if e true i i' h = ap some h
  play_on-if e false i i' h = refl

  -- After an error the writer is not clean; without one its contents follow the event.
  clean_after :
      (disk : Disk c) (e : CaptureEvent) (w : Writer c)
      → (clean c (some (write_event c describe disk e w).1) ≡ none)
        ⊎ (clean c (some (write_event c describe disk e w).1) ≡ play_on e (clean c (some w)))
  unfolding write_event mark_error
  clean_after disk e w = elim (Option-cases (append c disk e w).0) [
    | inl good ↦ inr (
        rw (good, write_event)
          (rw (errors-append c disk e w) (
            play_on-if e (is_empty w.errors) (ideal_of c w) (ideal_of c (append c disk e w).1)
              (ideal_of-append c disk e w (append c disk e w).1 (ground (arith, good))))))
    | inr (x, bad) ↦ inl (
        rw (bad, write_event)
          (rw (not_empty (append c disk e w).1.errors (shorten 1000 (describe x)))))
  ]

  writers-open :
      (world : World c) (d : SessionDescriptor) (waited : Bool) (k : Worker c)
      → world.open_error ≡ none
      → (process c describe world (open_command d waited) k).writers
        ≡ insert d.session_id (fresh c d world.fsync_each_event) k.writers
  unfolding process
  writers-open world d waited k h = ground arith

  writers-open_error :
      (world : World c) (d : SessionDescriptor) (waited : Bool) (k : Worker c) {error : String}
      → world.open_error ≡ some error
      → (process c describe world (open_command d waited) k).writers ≡ k.writers
  unfolding process
  writers-open_error world d waited k h = ground arith

  answers-open :
      (received : PerDirection Bytes) (world : World c) (d : SessionDescriptor) (waited : Bool)
      (k : Worker c)
      → All (GoodAnswer c received) k.answers
      → All (GoodAnswer c received) (process c describe world (open_command d waited) k).answers
  unfolding process
  answers-open received world d true k a = elim (Option-cases world.open_error) [
    | inl good ↦ rw (good, process) (tt, a)
    | inr (error, bad) ↦ rw (bad, process) (tt, a)
  ]
  answers-open received world d false k a = elim (Option-cases world.open_error) [
    | inl good ↦ rw (good, process) a
    | inr (error, bad) ↦ rw (bad, process) a
  ]

  writers-missing :
      (world : World c) (e : CaptureEvent) (k : Worker c)
      → lookup id k.writers ≡ none
      → (process c describe world (event_command id e) k).writers ≡ k.writers
  unfolding process
  writers-missing world e k h = ground arith

  writers-event :
      (world : World c) (e : CaptureEvent) (k : Worker c) (w : Writer c)
      → lookup id k.writers ≡ some w
      → (process c describe world (event_command id e) k).writers
        ≡ insert id (write_event c describe world.disk e w).1 k.writers
  unfolding process
  writers-event world e k w h = ground arith

  answers-event :
      (world : World c) (e : CaptureEvent) (k : Worker c)
      → (process c describe world (event_command id e) k).answers ≡ k.answers
  unfolding process
  answers-event world e k = ground arith

  answers-event' :
      (world : World c) (j : String) (e : CaptureEvent) (k : Worker c)
      → (process c describe world (event_command j e) k).answers ≡ k.answers
  unfolding process
  answers-event' world j e k = ground arith

  NotPublished-open :
      (world : World c) (d : SessionDescriptor) (waited : Bool) (k : Worker c)
      → All (NotPublished c) k.answers
      → All (NotPublished c) (process c describe world (open_command d waited) k).answers
  unfolding process
  NotPublished-open world d true k a = elim (Option-cases world.open_error) [
    | inl good ↦ rw (good, process) (tt, a)
    | inr (error, bad) ↦ rw (bad, process) (tt, a)
  ]
  NotPublished-open world d false k a = elim (Option-cases world.open_error) [
    | inl good ↦ rw (good, process) a
    | inr (error, bad) ↦ rw (bad, process) a
  ]

  close-missing :
      (world : World c) (closing : Closing c) (k : Worker c)
      → lookup id k.writers ≡ none
      → process c describe world (close_command id closing) k
        ≡ record k { answers = unavailable id ∷ k.answers }
  unfolding process
  close-missing world closing k h = ground arith

  writers-close :
      (world : World c) (closing : Closing c) (k : Worker c) (w : Writer c)
      → lookup id k.writers ≡ some w
      → (process c describe world (close_command id closing) k).writers ≡ erase id k.writers
  unfolding process
  writers-close world closing k w h = ground arith

  -- The answer to a close, by what `finalize` gives.
  abbrev close_answer : Option String × Directory c → Answer c
  close_answer (none, dir) = close_failed id dir
  close_answer (some hash, dir) = published id hash dir

  answers-close :
      (world : World c) (closing : Closing c) (k : Worker c) (w : Writer c)
      → lookup id k.writers ≡ some w
      → (process c describe world (close_command id closing) k).answers
        ≡ close_answer (finalize c world.fault world.taken closing w) ∷ k.answers
  unfolding process
  answers-close world closing k w h = ground arith

  good_close_answer :
      (world : World c) (closing : Closing c) (w : Writer c) (received : PerDirection Bytes)
      (r : Option String × Directory c)
      → SafeIf (clean c (some w)) closing.summary.observed_chunks received
      → finalize c world.fault world.taken closing w ≡ r
      → GoodAnswer c received (close_answer r)
  good_close_answer world closing w received (none, dir) safe e = tt
  good_close_answer world closing w received (some hash, dir) safe e =
      finalize-IsFaithful c world.fault world.taken closing w received safe e

  module _ (seen : PerDirection ℕ) (received : PerDirection Bytes) (q : List (Command c)) where
    Good-after_event :
        (disk : Disk c) (e : CaptureEvent) (w : Writer c)
        → Good c id seen received q (play_on e (clean c (some w)))
        → Good c id seen received q (clean c (some (write_event c describe disk e w).1))
    Good-after_event disk e w h = elim (clean_after disk e w) [
      | inl bad ↦ rw bad (weaken c id seen received q (play_on e (clean c (some w))) h)
      | inr good ↦ rw good h
    ]

    Handles-open :
        (world : World c) (d : SessionDescriptor) (waited : Bool) (k : Worker c)
        → Good c id seen received (open_command d waited ∷ q) (contents k)
        → All (GoodAnswer c received) k.answers
        → Handles seen received q (process c describe world (open_command d waited) k)
    Handles-open world d waited k h a = elim (Option-cases world.open_error) [
      | inl good ↦ record {
        good = rw (writers-open world d waited k good) (
            rw (lookup-insert d.session_id id (fresh c d world.fsync_each_event) k.writers)
              (let same : str_eq d.session_id id ≡ true = rw h.0 (str_eq_refl id) in rw same h.2));
        answers = answers-open received world d waited k a;
      }
      | inr (error, bad) ↦ record {
        good =
            rw (writers-open_error world d waited k bad)
              (rw h.1 (weaken c id seen received q (some nothing_yet) h.2));
        answers = answers-open received world d waited k a;
      }
    ]

    Handles-event :
        (world : World c) (e : CaptureEvent) (k : Worker c)
        → Good c id seen received (event_command id e ∷ q) (contents k)
        → All (GoodAnswer c received) k.answers
        → Handles seen received q (process c describe world (event_command id e) k)
    Handles-event world e k h a = elim (Option-cases (lookup id k.writers)) [
      | inl missing ↦ record {
        good = rw (writers-missing world e k missing) (rw missing (rw missing at h.1));
        answers = rw (answers-event world e k) a;
      }
      | inr (w, there) ↦ record {
        good = rw (writers-event world e k w there) (
            rw (lookup-insert id id (write_event c describe world.disk e w).1 k.writers)
              (rw (str_eq_refl id) (Good-after_event world.disk e w (rw there at h.1))));
        answers = rw (answers-event world e k) a;
      }
    ]

    Handles-close :
        (world : World c) (closing : Closing c) (k : Worker c)
        → Good c id seen received (close_command id closing ∷ q) (contents k)
        → All (GoodAnswer c received) k.answers
        → Handles seen received q (process c describe world (close_command id closing) k)
    Handles-close world closing k h a = elim (Option-cases (lookup id k.writers)) [
      | inl missing ↦ record {
        good = rw (close-missing world closing k missing) (rw missing h.2);
        answers = rw (close-missing world closing k missing) (tt, a);
      }
      | inr (w, there) ↦ record {
        good =
            rw (writers-close world closing k w there)
              (rw (lookup-erase id id k.writers) (rw (str_eq_refl id) h.2));
        answers = rw (answers-close world closing k w there) (
          good_close_answer world closing w received (finalize c world.fault world.taken closing w)
              (rw there at h.1) refl,
          a,
        );
      }
    ]

    pub handles :
        (world : World c) (command : Command c) (k : Worker c)
        → Good c id seen received (command ∷ q) (contents k)
        → All (GoodAnswer c received) k.answers
        → Handles seen received q (process c describe world command k)
    handles world (open_command d waited) k h a = Handles-open world d waited k h a
    handles world (event_command j e) k h a = rw h.0 (Handles-event world e k (refl, h.1) a)
    handles world (close_command j closing) k h a =
        rw h.0 (Handles-close world closing k (refl, h.1, h.2) a)
    handles world stop_command k h a = absurd h

    pub no_answer-process :
        (world : World c) (command : Command c) (k : Worker c)
        → NoClose c (command ∷ q)
        → All (NotPublished c) k.answers
        → All (NotPublished c) (process c describe world command k).answers
    no_answer-process world (open_command d waited) k n a = NotPublished-open world d waited k a
    no_answer-process world (event_command j e) k n a = rw (answers-event' world j e k) a
    no_answer-process world (close_command j closing) k n a = absurd n
    no_answer-process world stop_command k n a = unfold process in (tt, a)
