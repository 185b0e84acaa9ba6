-- ===== src/Queue/Tasks/Tests.antt =====
-- Runs of the commands of src/nodes/queue_node.py on a store in memory.

use distributed_sync_system.Base.{
  ℕ, ◌≡◌, ◌⊎◌, inl, refl, some, none, List, [], ◌∷◌, str_dec, lookup, lookup_or, insert, erase,
  contains,
}
use distributed_sync_system.Queue.Keys.{
  msg_key, pending_key, in_flight_key, has_colon, split, onto_first, queue_of,
}
use distributed_sync_system.Queue.Store.{update, last_of, but_last, is_due}
use distributed_sync_system.Queue.Message.{
  value_of, to_dict, from_dict, all_known, or_else, with_required, at_least, plus_one, str_of,
  flatten_value, flatten, as_number, unflatten_value, unflatten,
}
use distributed_sync_system.Queue.Node.{new_message, store_message, mark_in_flight}
use distributed_sync_system.Queue.Redeliver.{failing, again}
use distributed_sync_system.Queue.Tests.Memory.{
  Table, memory, names, keep_if, between, is_flight, has_members, in_range, flights,
}
use distributed_sync_system.Queue.Tests.Words.{words}
use distributed_sync_system.Queue.Tests.{idle, job, job-AllStorable, job-Tries, named}
use distributed_sync_system.Queue.Tasks.{
  TaskEvent, Pool, consuming_pop, begun, advanced, cut, put_task, found_message, check_found,
  advance, pool_step, run_pool,
}
use distributed_sync_system.Queue.Tasks.Placed.{Carries}
use distributed_sync_system.Queue.Tasks.Runs.{Placed, Lapsed, Ordinary, run_pool-Placed}

program : Unit {0}
unfolding str_dec lookup lookup_or insert erase contains msg_key pending_key in_flight_key split
    onto_first queue_of update last_of but_last is_due value_of to_dict from_dict all_known or_else
    with_required at_least plus_one str_of flatten_value flatten as_number unflatten_value unflatten
    new_message store_message mark_in_flight failing again names keep_if between is_flight
    has_members in_range flights put_task found_message check_found advance pool_step run_pool
program = tt

-- The message is on its list, and no task is under way.
abbrev pool : Pool Table ℕ
unfolding program
pool = record { node = store_message words memory job idle; tasks = λ k. none }

-- A consumer takes it off the list and puts it into the set, while another finds the list empty.
abbrev events : List (TaskEvent ℕ)
events =
    begun 0 (consuming_pop "jobs" 3)
    ∷ advanced 0 6 7
    ∷ begun 1 (consuming_pop "jobs" 3)
    ∷ advanced 1 6 7
    ∷ advanced 0 6 7
    ∷ advanced 0 6 7
    ∷ advanced 0 6 7
    ∷ []

run_pool-Placed_example :
    Placed words memory 1 "jobs" "m1" (run_pool words memory 1 events pool)
    ⊎ Lapsed words memory 1 "jobs" "m1" events pool
unfolding program has_colon Carries Ordinary
run_pool-Placed_example =
    run_pool-Placed words memory 1 "jobs" "m1" refl named events pool
      (refl, (tt, (refl, (tt, (tt, (tt, (tt, tt)))))))
      (record {
        reads = (job, record { reads = refl; storable = job-AllStorable; tries = job-Tries });
        carried = λ k t e. absurd (cc e);
      })
      (inl refl)

in_flight_again :
    lookup "m1"
      (lookup_or (in_flight_key "jobs") [] (run_pool words memory 1 events pool).node.redis.sets)
    ≡ some 10
unfolding program
in_flight_again = refl

-- A consumer that is cancelled after its first command leaves it neither on the list nor in the set.
abbrev stopped : Pool Table ℕ
unfolding program
stopped =
    run_pool words memory 1 (begun 0 (consuming_pop "jobs" 3) ∷ advanced 0 6 7 ∷ cut 0 ∷ []) pool

lost :
    (lookup_or (pending_key "jobs") [] stopped.node.redis.lists ≡ [])
    × (lookup_or (in_flight_key "jobs") [] stopped.node.redis.sets ≡ [])
    × (stopped.tasks 0 ≡ none)
unfolding program
lost = (refl, refl, refl)
