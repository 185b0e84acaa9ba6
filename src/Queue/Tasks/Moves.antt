-- ===== src/Queue/Tasks/Moves.antt =====
-- What each command of a call of src/nodes/queue_node.py does to the place of a message.

use distributed_sync_system.Base.{
  ℕ, ◌≡◌, ◌≢◌, inl, inr, refl, ap, false, Option, none, some, [], ◌∷◌, String,
}
use distributed_sync_system.Queue.Keys.{
  msg_key, pending_key, in_flight_key, has_colon, queue_of-Free,
}
use distributed_sync_system.Queue.Store.{Redis}
use distributed_sync_system.Queue.Message.{completed, value_of, Codec, str_of}
use distributed_sync_system.Queue.Node.{QueueNode}
use distributed_sync_system.Queue.Stored.{}
use distributed_sync_system.Queue.Kept.{Spares, hset-Spares, expire-Spares}
use distributed_sync_system.Queue.Kept.Handlers.{msg_key_apart, flight_apart}
use distributed_sync_system.Queue.Kept.Redelivery.{set_apart}
use distributed_sync_system.Queue.Tasks.Placed.{
  Readable, Carries, Holds, GivesUp, Moves, spared, one, ended,
}
use distributed_sync_system.Queue.Tasks.{
  Task, storing_save, storing_push, storing_expire, consuming_pop, consuming_read, consuming_save,
  consuming_add, acknowledging_mark, acknowledging_remove, checking, failing_save, failing_remove,
  again_save, again_remove, again_push, advance,
}
use distributed_sync_system.Queue.Tasks.Commands.{
  saved-Moves, pushed-Moves, added-Moves, removed-Moves,
}
use distributed_sync_system.Queue.Tasks.Reading.{
  consuming_read-Moves, checking-Moves, consuming_pop-Moves,
}

module _ {J : Type 0} (codec : Codec J) (db : Redis) (max_retries : ℕ) (q i : String)
    (plain : has_colon q ≡ false) where
  abbrev R : db.Store → Type 0
  R = Readable codec db max_retries q i

  abbrev M : Task J → QueueNode db.Store → QueueNode db.Store × Option (Task J) → Type 0
  M = Moves codec db max_retries q i

  abbrev C : Task J → Type 0
  C = Carries codec db max_retries q i

  abbrev SparesIt : db.Store → db.Store → Type 0
  SparesIt = Spares codec db max_retries q i

  -- Whatever task does its next command, the message can be read, and it is on the list, in flight or with
  -- that task if it was, unless the task gives it up.
  pub advance-Moves :
      (named : i ≢ "") (now later : ℕ) (t : Task J) (n : QueueNode db.Store)
      → C t
      → R n.redis
      → M t n (advance codec db max_retries now later t n)
  unfolding advance Carries Holds GivesUp
  advance-Moves named now later (storing_save m) n (h, fine) read =
      saved-Moves codec db max_retries q i plain (storing_save m) (storing_push m)
        (str_of codec m.queue) (str_of codec m.message_id) m n _ refl h fine tt (λ x. absurd x) read
  advance-Moves named now later (storing_push m) n c read =
      pushed-Moves codec db max_retries q i plain (storing_push m) (some (storing_expire m))
        (pending_key (str_of codec m.queue)) (str_of codec m.message_id) n _ refl read
        (λ t' same. one codec db max_retries q i C (storing_expire m) t' same tt) (λ x. absurd x)
  advance-Moves named now later (storing_expire m) n c read =
      let k = msg_key (str_of codec m.queue) (str_of codec m.message_id) in
      spared codec db max_retries q i (storing_expire m) n _ none
        (expire-Spares codec db max_retries q i k 86400 n.redis) read
        (ended codec db max_retries q i) (λ x. absurd x)
  advance-Moves named now later (consuming_pop r a) n h read =
      consuming_pop-Moves codec db max_retries q i plain named now later r a n h read
  advance-Moves named now later (consuming_read r j a) n h read =
      consuming_read-Moves codec db max_retries q i plain now later r j a n h read
  advance-Moves named now later (consuming_save r j d m) n (h, fine) read =
      saved-Moves codec db max_retries q i plain (consuming_save r j d m) (consuming_add r j d) r j
        m n _ refl h fine tt (λ x. x) read
  advance-Moves named now later (consuming_add r j d) n c read =
      added-Moves codec db max_retries q i plain r j d n _ refl read
  advance-Moves named now later (acknowledging_mark r j) n (h, other) read =
      let fields = ("status", value_of completed) ∷ [] in
      spared codec db max_retries q i (acknowledging_mark r j) n _ (some (acknowledging_remove r j))
        (hset-Spares codec db max_retries q i (msg_key r j) fields n.redis
          (msg_key_apart q i r j plain h other))
        read
        (λ t' same. one codec db max_retries q i C (acknowledging_remove r j) t' same (h, other))
        (λ x. absurd x)
  advance-Moves named now later (acknowledging_remove r j) n (h, other) read =
      removed-Moves codec db max_retries q i plain (acknowledging_remove r j) none (in_flight_key r)
        r j n _ refl read (ended codec db max_retries q i) (λ d. flight_apart q i r j plain h d)
        (λ a b. absurd (elim other [ inl d ↦ d a | inr d ↦ d b ])) (λ x. x)
  advance-Moves named now later (checking key r j) n c read =
      checking-Moves codec db max_retries q i plain now later key r j n c read
  advance-Moves named now later (failing_save key r j m) n (c, fine, e) read =
      saved-Moves codec db max_retries q i plain (failing_save key r j m) (failing_remove key r j m)
        r j m n _ refl (queue_of-Free key r c) fine (c, e) (λ x. absurd x) read
  advance-Moves named now later (failing_remove key r j m) n (c, e) read =
      removed-Moves codec db max_retries q i plain (failing_remove key r j m) none key r j n _ refl
        read (ended codec db max_retries q i) (set_apart codec db max_retries q i plain key r j c)
        (λ a b. inr (a, b, e)) (λ x. x)
  advance-Moves named now later (again_save key r j m) n (c, fine) read =
      saved-Moves codec db max_retries q i plain (again_save key r j m) (again_remove key r j) r j m
        n _ refl (queue_of-Free key r c) fine c (λ x. absurd x) read
  advance-Moves named now later (again_remove key r j) n c read =
      removed-Moves codec db max_retries q i plain (again_remove key r j) (some (again_push r j))
        key r j n _ refl read
        (λ t' same. one codec db max_retries q i C (again_push r j) t' same tt)
        (set_apart codec db max_retries q i plain key r j c)
        (λ a b. inl (inr (inr (again_push r j, refl, (a, b))))) (λ x. x)
  advance-Moves named now later (again_push r j) n c read =
      pushed-Moves codec db max_retries q i plain (again_push r j) none (pending_key r) j n _ refl
        read (ended codec db max_retries q i) (λ (a, b). (ap pending_key a, b))
