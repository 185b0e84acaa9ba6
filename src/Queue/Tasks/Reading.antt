-- ===== src/Queue/Tasks/Reading.antt =====
-- The commands of the calls of src/nodes/queue_node.py that take or read an id, and the place of a message.
use mathlib.Core.Option.{some-injective}
use distributed_sync_system.Base.{
  ℕ, ◌+◌, ◌≡◌, ◌≢◌, ◌⊎◌, inl, inr, refl, sym, ◌∙◌, true, false, Option, none, some, String,
  returned, Option-cases, Outcome-cases, subst, str_dec, if_pos, if_neg,
}
use distributed_sync_system.Queue.Keys.{msg_key, pending_key, queue_of, has_colon}
use distributed_sync_system.Queue.Store.{Redis}
use distributed_sync_system.Queue.Message.{Codec, Message, at_least}
use distributed_sync_system.Queue.Node.{QueueNode, mark_in_flight}
use distributed_sync_system.Queue.Redeliver.{failing, again}
use distributed_sync_system.Queue.Stored.{
  AllStorable, mark_in_flight-AllStorable, again-AllStorable, failing-AllStorable,
}
use distributed_sync_system.Queue.Kept.{Tries, Held-same, Spares, rpop-Spares, pending_key_inj}
use distributed_sync_system.Queue.Kept.Handlers.{same_or_apart, at_same}
use distributed_sync_system.Queue.Kept.Redelivery.{once_more}
use distributed_sync_system.Queue.Tasks.Placed.{
  Readable, Fine, Carries, Holds, Moves, spared, one, ended, found_read,
}
use distributed_sync_system.Queue.Tasks.{
  Task, consuming_pop, consuming_read, consuming_save, checking, failing_save, again_save,
  found_message, check_found, advance,
}

module _ {J : Type 0} (codec : Codec J) (db : Redis) (max_retries : ℕ) (q i : String)
    (plain : has_colon q ≡ false) where
  abbrev R : db.Store → Type 0
  R = Readable codec db max_retries q i

  abbrev M : Task J → QueueNode db.Store → QueueNode db.Store × Option (Task J) → Type 0
  M = Moves codec db max_retries q i

  abbrev C : Task J → Type 0
  C = Carries codec db max_retries q i

  abbrev SparesIt : db.Store → db.Store → Type 0
  SparesIt = Spares codec db max_retries q i

  found_own :
      (r j : String) (m : Message J) (s : db.Store)
      → found_message codec db max_retries (db.hgetall (msg_key r j) s) ≡ some m
      → R s
      → Fine codec db max_retries q i r j m
  found_own r j m s e (m', held) a b =
      let f : found_message codec db max_retries (db.hgetall (msg_key r j) s) ≡ some m' =
        at_same (λ x y. found_message codec db max_retries (db.hgetall (msg_key x y) s) ≡ some m') q
          r i j a b
          (found_read codec db max_retries q i (db.hgetall (msg_key q i) s) m' held.reads) in
      let same : m' ≡ m = some-injective m' m (sym f ∙ e) in
      subst (λ x. AllStorable codec x × Tries codec db max_retries q i x) same
        (held.storable, held.tries)

  -- The hash of the message is not gone.
  found_some :
      (r j : String) (s : db.Store)
      → found_message codec db max_retries (db.hgetall (msg_key r j) s) ≡ none
      → R s
      → q ≡ r
      → i ≡ j
      → ⊥
  found_some r j s e (m, held) a b =
      let f : found_message codec db max_retries (db.hgetall (msg_key r j) s) ≡ some m =
        at_same (λ x y. found_message codec db max_retries (db.hgetall (msg_key x y) s) ≡ some m) q
          r i j a b
          (found_read codec db max_retries q i (db.hgetall (msg_key q i) s) m held.reads) in
      cc (e, f)

  same-Spares : (s : db.Store) → SparesIt s s
  same-Spares s = record { hash = refl; listed = λ p. p; flying = λ f. f }

  pub consuming_read-Moves :
      (now later : ℕ) (r j : String) (a : ℕ) (n : QueueNode db.Store)
      → has_colon r ≡ false
      → R n.redis
      → M (consuming_read r j a) n (advance codec db max_retries now later (consuming_read r j a) n)
  unfolding advance Holds Carries mark_in_flight
  consuming_read-Moves now later r j a n h read =
      let t : Task J = consuming_read r j a in
      elim (Option-cases (found_message codec db max_retries (db.hgetall (msg_key r j) n.redis))) [
        | inl e ↦
            rw (e, advance)
              (spared codec db max_retries q i t n n none (same-Spares n.redis) read
                (ended codec db max_retries q i)
                (λ (x, y). absurd (found_some r j n.redis e read x y)))
        | inr (m, e) ↦
            let deadline = later + a in
            let m' = mark_in_flight now deadline m in
            let next : Task J = consuming_save r j deadline m' in
            rw (e, advance)
              (spared codec db max_retries q i t n n (some next) (same-Spares n.redis) read
                (λ t' same. one codec db max_retries q i C next t' same (
                  h,
                  λ x y.
                      let (storable, tries) = found_own r j m n.redis e read x y in
                      (
                        mark_in_flight-AllStorable codec now deadline m storable,
                        record {
                          count = tries.count;
                          counted = tries.counted;
                          within = tries.within;
                        },
                      ),
                ))
                (λ x. inr (inr (next, refl, x))))
      ]

  check_found-Carries :
      (key r j : String) (m : Message J)
      → queue_of key ≡ returned r
      → Fine codec db max_retries q i r j m
      → (t' : Task J) → check_found codec db max_retries key r j m ≡ some t'
      → C t'
  unfolding check_found Carries failing
  check_found-Carries key r j m named fine t' =
      elim (Outcome-cases (at_least max_retries m.retry_count)) [
        | inl (true, e) ↦
            rw (e, check_found)
              (λ same. one codec db max_retries q i C (failing_save key r j (failing m)) t' same (
                named,
                (λ a b.
                    let (storable, tries) = fine a b in
                    (
                      failing-AllStorable codec m storable,
                      record {
                        count = tries.count;
                        counted = tries.counted;
                        within = tries.within;
                      },
                    )),
                e,
              ))
        | inl (false, e) ↦
            rw (e, check_found)
              (λ same. one codec db max_retries q i C (again_save key r j (again m)) t' same (
                named,
                λ a b.
                    let (storable, tries) = fine a b in
                    (
                      again-AllStorable codec m storable,
                      once_more codec db max_retries q i plain m tries e,
                    ),
              ))
        | inr (x, e) ↦ rw (e, check_found) (ended codec db max_retries q i t')
      ]

  pub checking-Moves :
      (now later : ℕ) (key r j : String) (n : QueueNode db.Store)
      → queue_of key ≡ returned r
      → R n.redis
      → M (checking key r j) n (advance codec db max_retries now later (checking key r j) n)
  unfolding advance Holds
  checking-Moves now later key r j n named read =
      let t : Task J = checking key r j in
      elim (Option-cases (found_message codec db max_retries (db.hgetall (msg_key r j) n.redis))) [
        | inl e ↦
            rw (e, advance)
              (spared codec db max_retries q i t n n none (same-Spares n.redis) read
                (ended codec db max_retries q i) (λ x. absurd x))
        | inr (m, e) ↦
            rw (e, advance)
              (spared codec db max_retries q i t n n (check_found codec db max_retries key r j m)
                (same-Spares n.redis) read
                (check_found-Carries key r j m named (found_own r j m n.redis e read))
                (λ x. absurd x))
      ]

  popped_other :
      (r : String) (a : ℕ) (n : QueueNode db.Store) (next : Option (Task J))
      → (pending_key q ≢ pending_key r) ⊎ ((db.rpop (pending_key r) n.redis).1 ≢ some i)
      → R n.redis
      → ((t' : Task J) → next ≡ some t' → C t')
      → M (consuming_pop r a) n (record n { redis = (db.rpop (pending_key r) n.redis).0 }, next)
  unfolding Holds
  popped_other r a n next other read c =
      spared codec db max_retries q i (consuming_pop r a) n
        (record n { redis = (db.rpop (pending_key r) n.redis).0 }) next
        (rpop-Spares codec db max_retries q i (pending_key r) n.redis other) read c (λ x. absurd x)

  popped_some :
      (r j : String) (a : ℕ) (n : QueueNode db.Store)
      → has_colon r ≡ false
      → (db.rpop (pending_key r) n.redis).1 ≡ some j
      → R n.redis
      → M
          (consuming_pop r a)
          n
          (record n { redis = (db.rpop (pending_key r) n.redis).0 }, some (consuming_read r j a))
  unfolding Holds Carries
  popped_some r j a n h e read =
      let next : Task J = consuming_read r j a in
      let c = λ (t' : Task J) (same : some next ≡ some t').
        one codec db max_retries q i C next t' same h in
      elim (same_or_apart q r i j) [
        | inl (x, y) ↦ record {
          reads =
              (let (m, held) = read in
                (
                  m,
                  Held-same codec db max_retries q i n.redis (db.rpop (pending_key r) n.redis).0 m
                      (db.hgetall-rpop (msg_key q i) (pending_key r) n.redis) held,
                ));
          carried = c;
          from_list = λ p. inr (inr (next, refl, (x, y)));
          from_set = λ f. inl (inr (inr (next, refl, (x, y))));
          from_task = λ z. absurd z;
        }
        | inr d ↦
            popped_other r a n (some next)
              (elim d [
                | inl x ↦ inl (λ same. x (pending_key_inj q r same))
                | inr y ↦ inr (rw e (λ same. y (sym (some-injective j i same))))
              ])
              read c
      ]

  pub consuming_pop-Moves :
      (named : i ≢ "") (now later : ℕ) (r : String) (a : ℕ) (n : QueueNode db.Store)
      → has_colon r ≡ false
      → R n.redis
      → M (consuming_pop r a) n (advance codec db max_retries now later (consuming_pop r a) n)
  unfolding advance
  consuming_pop-Moves named now later r a n h read =
      elim (Option-cases (db.rpop (pending_key r) n.redis).1) [
        | inl e ↦
            rw (e, advance)
              (popped_other r a n none (inr (rw e (λ never. cc never))) read
                (ended codec db max_retries q i))
        | inr (j, e) ↦ elim (str_dec j "") [
          | yes gone ↦
              rw (e, advance)
                (rw
                  (if_pos {C = Option (Task J)} (str_dec j "") gone none
                    (some (consuming_read r j a)))
                  (popped_other r a n none
                    (inr (rw e (λ same. named (sym (some-injective j i same) ∙ gone)))) read
                    (ended codec db max_retries q i)))
          | no id ↦
              rw (e, advance)
                (rw
                  (if_neg {C = Option (Task J)} (str_dec j "") id none
                    (some (consuming_read r j a)))
                  (popped_some r j a n h e read))
        ]
      ]
