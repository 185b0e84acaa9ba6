-- ===== src/Queue/Tests.antt =====
-- Runs of the queue of src/nodes/queue_node.py on a store in memory and a small codec.
pub mod Memory
pub mod Words
use distributed_sync_system.Base.{
  ℕ, ◌≡◌, ◌≢◌, refl, Bool, true, false, some, none, List, [], ◌∷◌, String, str_dec, lookup,
  lookup_or, insert, erase, contains, returned, raised, type_error, All, arith, ite,
}
use text.Mathlib.TextEquality.{eq_iff}
use distributed_sync_system.Queue.Keys.{
  msg_key, pending_key, in_flight_key, has_colon, split, onto_first, queue_of, url_to_id,
  split_slashes, last_piece, first_piece,
}
use distributed_sync_system.Queue.Store.{Redis, update, last_of, but_last, is_due}
use distributed_sync_system.Queue.Message.{
  Value, str, integer, real, flag, nothing, structure, Message, value_of, to_dict, from_dict,
  all_known, or_else, with_required, at_least, plus_one, str_of, flatten_value, flatten, as_number,
  unflatten_value, unflatten,
}
use distributed_sync_system.Queue.Node.{
  QueueNode, empty, delivered, new_message, store_message, consume, consume_found, deliver,
  mark_in_flight, acknowledge,
}
use distributed_sync_system.Queue.Redeliver.{
  failing, again, fail_message, requeue_message, redeliver_message, redeliver_ids, redeliver_key,
  redeliver_keys, check_and_redeliver,
}
use distributed_sync_system.Queue.Stored.{AllStorable, from_dict-saved}
use distributed_sync_system.Queue.Kept.{Kept, Tries}
use distributed_sync_system.Queue.Kept.Runs.{
  QueueEvent, stored, consumed, acknowledged, checked, queue_step, run, run-Kept,
}
use distributed_sync_system.Queue.Kept.Sound.{Sound}
use distributed_sync_system.Queue.Keys.{url_to_id, split_slashes, last_piece, first_piece}
use distributed_sync_system.Ring.Hashing.{get_node, point_for, bisect_left, node_at}
use distributed_sync_system.Metrics.{counter, gauge, count_up, increment_gauge}
use distributed_sync_system.Queue.Node.{
  produce_message, dispatch, is_own, first_with, is_in, node_id_to_url, count_produced,
  queue_store_internal,
}
use distributed_sync_system.Queue.Produce.{answer_lost, arrive, produce_among, produce_among-Kept}
use distributed_sync_system.Queue.Order.{QueueCall, enqueue, dequeue, fifo, answers}
use distributed_sync_system.Queue.Order.Answers.{answers-fifo}
use Memory.{Table, memory, names, keep_if, between, is_flight, has_members, in_range, flights}
use Words.{words}

never : false ≡ true → ⊥
never e = cc e

program : Unit {0}
unfolding str_dec lookup lookup_or insert erase contains msg_key pending_key in_flight_key split
    onto_first queue_of update last_of but_last is_due value_of to_dict from_dict all_known or_else
    with_required at_least plus_one str_of flatten_value flatten as_number unflatten_value unflatten
    new_message store_message consume consume_found deliver mark_in_flight acknowledge failing again
    fail_message requeue_message redeliver_message redeliver_ids redeliver_key redeliver_keys
    check_and_redeliver queue_step run names keep_if between is_flight has_members in_range flights
program = tt

abbrev pub idle : QueueNode Table
idle = record {
  node_id = "node1";
  node_port = 8001;
  peers = [];
  ring = record { virtual_nodes = 0; ring = []; map = [] };
  all_nodes = "node1" ∷ [];
  redis = record { hashes = []; lists = []; sets = [] };
  metrics = record { counters = []; gauges = []; histograms = [] };
}

abbrev pub job : Message ℕ
unfolding new_message value_of
job = new_message "m1" "jobs" (structure 1) "anon" 5

abbrev after : QueueNode Table
unfolding program
after =
    run words memory 1 (consumed "jobs" 3 6 7 ∷ checked 9 ∷ checked 10 ∷ [])
      (store_message words memory job idle)

at_ten : lookup_or (pending_key "jobs") [] after.redis.lists ≡ "m1" ∷ []
unfolding program
at_ten = refl

pub job-AllStorable : AllStorable words job
unfolding program
job-AllStorable = record {
  of_message_id = (refl, refl, refl);
  of_queue = (refl, refl, refl);
  of_payload = tt;
  of_producer_id = (refl, refl, refl);
  of_status = (refl, refl, refl);
  of_created_at = tt;
  of_delivered_at = tt;
  of_retry_count = tt;
  of_ack_deadline = tt;
}

pub job-Tries : Tries words memory 1 "jobs" "m1" job
unfolding job
job-Tries = record { count = 0; counted = refl; within = omega arith }

pub named : ◌≢◌ {A = String} "m1" ""
named e = never ((eq_iff "m1" "").1 e)

still_there : Kept words memory 1 "jobs" "m1" after.redis
unfolding program has_colon
still_there =
    run-Kept words memory 1 "jobs" "m1" refl named job
      (consumed "jobs" 3 6 7 ∷ checked 9 ∷ checked 10 ∷ []) idle refl refl job-AllStorable job-Tries
      refl (refl, (tt, (tt, tt)))

from_dict-saved_example :
    from_dict (unflatten words (update (flatten words (to_dict job)) [])) ≡ returned job
unfolding program
from_dict-saved_example = from_dict-saved words job [] job-AllStorable refl

abbrev flying : QueueNode Table
unfolding program
flying = run words memory 1 (consumed "jobs" 3 6 7 ∷ []) (store_message words memory job idle)

-- A queue whose name has a colon: its message stays in flight for good.
abbrev odd : QueueNode Table
unfolding program
odd =
    run words memory 1 (consumed "a:b" 3 6 7 ∷ checked 100 ∷ [])
      (store_message words memory (new_message "m1" "a:b" (structure 1) "anon" 5) idle)

odd_stays : lookup_or (in_flight_key "a:b") [] odd.redis.sets ≡ ("m1", 10) ∷ []
unfolding program
odd_stays = refl

-- An acknowledgment of an id that the store does not have leaves a hash that is no message.
late_ack :
    (consume words memory "jobs" 3 1 1 (
      acknowledge memory "jobs" "m1" (record idle {
        redis = record { hashes = []; lists = (pending_key "jobs", "m1" ∷ []) ∷ []; sets = [] };
      }))).1
    ≡ raised type_error
unfolding program
late_ack = refl

-- None and booleans come back as texts.
none_as_text : unflatten_value words (flatten_value words nothing) ≡ str "None"
unfolding program
none_as_text = refl

node_names : url_to_id "http://node2:8002" ≡ "node2"
unfolding program url_to_id split_slashes last_piece first_piece
node_names = refl

abbrev one_node : QueueNode Table
one_node = record idle {
  ring = record { virtual_nodes = 1; ring = 4 ∷ []; map = (4, "node2") ∷ [] };
  peers = "http://node2:8002" ∷ [];
}

-- The answer is lost: the other node has the message on the list, and this one adds it again.
produce_among-Kept_example :
    let p = produce_among words memory (λ k. 3) answer_lost job one_node in
    (p.1 ≡ returned (str "m1")) × Kept words memory 1 "jobs" "m1" p.0.redis
unfolding program has_colon get_node point_for bisect_left node_at
produce_among-Kept_example =
    produce_among-Kept words memory 1 "jobs" "m1" refl job refl refl job-AllStorable job-Tries
      (λ k. 3) "node2" one_node refl answer_lost refl

listed_twice :
    lookup_or
      (pending_key "jobs")
      []
      (produce_among words memory (λ k. 3) answer_lost job one_node).0.redis.lists
    ≡ "m1" ∷ "m1" ∷ []
unfolding program get_node point_for bisect_left node_at produce_among produce_message dispatch
    is_own first_with is_in node_id_to_url count_produced arrive queue_store_internal count_up
    counter increment_gauge gauge
listed_twice = refl

-- The URL of node1 is that of the first peer whose URL has this text in it.
wrong_peer :
    node_id_to_url words memory
      (some "node1")
      (record idle { peers = "http://node10:8010" ∷ "http://node1:8001" ∷ [] })
    ≡ returned "http://node10:8010"
unfolding program node_id_to_url first_with is_in
wrong_peer = refl

abbrev other_job : Message ℕ
unfolding new_message value_of
other_job = new_message "m2" "jobs" (structure 2) "anon" 5

other_job-AllStorable : AllStorable words other_job
unfolding program
other_job-AllStorable = record {
  of_message_id = (refl, refl, refl);
  of_queue = (refl, refl, refl);
  of_payload = tt;
  of_producer_id = (refl, refl, refl);
  of_status = (refl, refl, refl);
  of_created_at = tt;
  of_delivered_at = tt;
  of_retry_count = tt;
  of_ack_deadline = tt;
}

named_too : ◌≢◌ {A = String} "m2" ""
named_too e = never ((eq_iff "m2" "").1 e)

abbrev calls : List (QueueCall ℕ)
calls = enqueue job ∷ enqueue other_job ∷ dequeue 3 6 7 ∷ dequeue 3 8 9 ∷ dequeue 3 10 11 ∷ []

answers-fifo_example :
    answers words memory "jobs" calls idle
    ≡ returned (delivered (mark_in_flight 6 10 job))
      ∷ returned (delivered (mark_in_flight 8 12 other_job))
      ∷ returned (empty "jobs")
      ∷ []
unfolding program fifo
answers-fifo_example =
    answers-fifo words memory "jobs" calls idle refl
      ((refl, named, job-AllStorable), ((refl, named_too, other_job-AllStorable), tt))
      (refl, (refl, tt)) (refl, (refl, tt))
