-- ===== src/Queue/Order/Answers.antt =====
-- The answers of src/nodes/queue_node.py to a producer and its consumers are those of the first-in
-- first-out queue.

use distributed_sync_system.Base.{
  ℕ, ◌+◌, ◌≡◌, inl, inr, refl, sym, ap, ap₂, ◌∙◌, false, Option, none, some, List, [], ◌∷◌, map,
  String, All, contains, Distinct, Option-cases,
}
use distributed_sync_system.Queue.Keys.{msg_key, pending_key}
use distributed_sync_system.Queue.Store.{Redis, last_of, but_last}
use distributed_sync_system.Queue.Message.{Codec, Message}
use distributed_sync_system.Queue.Node.{QueueNode, store_message, consume}
use distributed_sync_system.Queue.Reads.{consume_popped, consume_found_read}
use distributed_sync_system.Queue.Order.{
  taken, QueueCall, enqueue, dequeue, enqueued, fifo, answers, reply_of, last_of-map,
  last_of-map_none, but_last-map, All-last, last_apart, contains-last,
}
use distributed_sync_system.Queue.Order.Matching.{
  id_of, ids, IsNew, Fits, Reads, Matches, rest_of, put-Matches, pop-Matches, deliver-Matches,
}

module _ {J : Type 0} (codec : Codec J) (db : Redis) (q : String) where
  popped :
      (ms : List (Message J)) (n : QueueNode db.Store) (o : Option String)
      → db.list (pending_key q) n.redis ≡ ids codec db q ms
      → last_of (ids codec db q ms) ≡ o
      → (db.rpop (pending_key q) n.redis).1 ≡ o
  popped ms n o e l = db.rpop_last (pending_key q) n.redis ∙ ap last_of e ∙ l

  -- The node answers a consumer as the specification does, and they go on alike.
  take-Matches :
      (ack_timeout now later : ℕ) (ps : List (Message J)) (ms : List (Message J))
      (n : QueueNode db.Store)
      → Matches codec db q ms ps n.redis
      → let p = consume codec db q ack_timeout now later n in
        (p.1 ≡ reply_of q (taken now (later + ack_timeout) (last_of ms)))
        × Matches codec db q (but_last ms) ps p.0.redis
  unfolding consume
  take-Matches ack_timeout now later ps ms n w =
      let w' = pop-Matches codec db q ps ms n w in
      elim (Option-cases (last_of ms)) [
        | inl l ↦
            let gone = popped ms n none w.listed (last_of-map_none (id_of codec db q) ms l) in
            rw (gone, consume) (rw l (refl, w'))
        | inr (m, l) ↦
            let found = last_of-map (id_of codec db q) ms m l in
            let (e, named, a) = All-last (Fits codec db q) ms m l w.fit in
            let read : Reads codec db q (rest_of codec db q n).redis m =
              rw (db.hgetall-rpop (msg_key q (id_of codec db q m)) (pending_key q) n.redis)
                (All-last (Reads codec db q n.redis) ms m l w.read) in
            let absent : contains (id_of codec db q m) (ids codec db q (but_last ms)) ≡ false =
              rw (sym (but_last-map (id_of codec db q) ms))
                (last_apart (id_of codec db q m) (ids codec db q ms) w.once found) in
            let later_absent =
              w.apart (id_of codec db q m)
                (contains-last (id_of codec db q m) (ids codec db q ms) found) in
            rw
              (consume_popped codec db q (id_of codec db q m) ack_timeout now later n
                (popped ms n (some (id_of codec db q m)) w.listed found) named)
              (rw
                (consume_found_read codec db q (id_of codec db q m) now (later + ack_timeout) m
                  (rest_of codec db q n) read)
                (rw l (
                  refl,
                  deliver-Matches codec db q now (later + ack_timeout) m ps (but_last ms)
                      (rest_of codec db q n) absent later_absent w',
                )))
      ]

  run-Matches :
      (cs : List (QueueCall J)) (ms : List (Message J)) (n : QueueNode db.Store)
      → All (Fits codec db q) (enqueued cs)
      → Distinct (ids codec db q (enqueued cs))
      → Matches codec db q ms (enqueued cs) n.redis
      → answers codec db q cs n ≡ map (reply_of q) (fifo cs ms)
  unfolding answers fifo
  run-Matches [] ms n f d w = refl
  run-Matches (enqueue m ∷ cs) ms n f d w =
      run-Matches cs (m ∷ ms) (store_message codec db m n) f.1 d.1
        (put-Matches codec db q m (enqueued cs) ms n f.0 d w)
  run-Matches (dequeue ack_timeout now later ∷ cs) ms n f d w =
      let n' = (consume codec db q ack_timeout now later n).0 in
      let (reply, w') = take-Matches ack_timeout now later (enqueued cs) ms n w in
      let rest = run-Matches cs (but_last ms) n' f d w' in ap₂ ◌∷◌ reply rest

  -- Starting from an empty list, the answers to any calls of store and consume on a queue are those of a
  -- first-in first-out queue: a consumer gets the oldest message that waits, marked as in flight with
  -- the two times of the call, or is told that the queue is empty. The stored messages are for the
  -- queue and can be stored, and their ids are not empty, not in use and differ.
  pub answers-fifo :
      (cs : List (QueueCall J)) (n : QueueNode db.Store)
      → db.list (pending_key q) n.redis ≡ []
      → All (Fits codec db q) (enqueued cs)
      → Distinct (ids codec db q (enqueued cs))
      → All (IsNew codec db q n.redis) (enqueued cs)
      → answers codec db q cs n ≡ map (reply_of q) (fifo cs [])
  unfolding contains
  answers-fifo cs n e f d new = run-Matches cs [] n f d (record {
    listed = e;
    read = tt;
    fit = tt;
    new = new;
    apart = λ x c. absurd (cc c);
    once = tt;
  })
