-- ===== src/Messages/Tests.antt =====
-- Runs of the calls of src/communication/message_passing.py.
use distributed_sync_system.Base.{
  ℕ, ◌+◌, ◌≡◌, refl, false, some, none, [], ◌∷◌, List, String, lookup, contains, ite, str_dec,
  length, union, add, if◌then◌else◌,
}
use distributed_sync_system.Metrics.{Registry, counter_value}
use distributed_sync_system.Messages.Calls.{
  MessagePassing, HttpResult, response, timed_out, opened, send, request, broadcast, ping_peer,
}
use distributed_sync_system.Messages.Broadcast.{answer_of, fails, failures, broadcast_lem}

abbrev started : MessagePassing
started = record { node_id = "a"; session = opened }

abbrev fresh : Registry
fresh = record { counters = []; gauges = []; histograms = [] }

-- The first peer answers, the second is over its time, the third refuses with a status.
abbrev results : String → HttpResult ℕ
unfolding str_dec
results p =
    ite (str_dec p "b") (response 3 200 (some 7))
      (ite (str_dec p "c") timed_out (response 2 500 (some 0)))

abbrev peers : List String
peers = "b" ∷ "c" ∷ "d" ∷ "b" ∷ []

broadcast_lem_example :
    let (r', answers) = broadcast started results peers fresh in
    ((p : String)
      → lookup p answers ≡ (if contains p peers then some (answer_of (results p)) else none))
    × (counter_value "rpc_calls_total" r'
        ≡ counter_value "rpc_calls_total" fresh + length (union [] peers))
    × (counter_value "rpc_failures_total" r'
        ≡ counter_value "rpc_failures_total" fresh + failures results (union [] peers))
broadcast_lem_example = broadcast_lem started results refl peers fresh

three_calls : length (union [] peers) ≡ 3
unfolding union add str_dec
three_calls = refl

one_failure : failures results (union [] peers) ≡ 1
unfolding failures fails union add str_dec
one_failure = refl

-- A response with status 500 is no failure.
refused_ping : ping_peer started (results "d") fresh ≡ ((send started (results "d") fresh).0, false)
unfolding ping_peer send request str_dec
refused_ping = refl
