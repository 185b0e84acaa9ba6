-- ===== src/Messages/Broadcast.antt =====
-- What a broadcast of src/communication/message_passing.py answers and counts.
use text.Mathlib.TextEquality.{eq_iff}
use distributed_sync_system.Base.{
  ℕ, ◌+◌, ◌≡◌, ◌≢◌, refl, Bool, true, false, Option, none, some, List, [], ◌∷◌, String, lookup,
  contains, union, contains-union, ite, str_dec, length, ◌==◌, if◌then◌else◌, arith,
}
use distributed_sync_system.Metrics.{
  Registry, histogram, count_up, counter_value, counter_value-count_up,
}
use distributed_sync_system.Messages.Calls.{
  MessagePassing, HttpResult, response, timed_out, connector_error, other_error, opened, send,
  request, send_all, broadcast, observe_duration, count_failure,
}

counter_value-observe_duration :
    (name : String) (elapsed : ℕ) (r : Registry)
    → counter_value name (observe_duration elapsed r) ≡ counter_value name r
unfolding counter_value observe_duration histogram
counter_value-observe_duration name elapsed r = ground arith

other_counter : ◌≢◌ {A = String} "rpc_calls_total" "rpc_failures_total"
other_counter e = never ((eq_iff "rpc_calls_total" "rpc_failures_total").1 e)
  where
    never : false ≡ true → ⊥
    never x = cc x

nothing_in : (p : String) → contains p [] ≡ false
unfolding contains
nothing_in p = refl

module _ {J : Type 0} where
  -- The answer of a call: the body of a response with status 200 that can be read.
  unfoldable pub answer_of : HttpResult J → Option J
  answer_of (response elapsed status (some body)) = if status == 200 then some body else none
  answer_of _ = none

  -- The calls that raise an exception.
  unfoldable pub fails : HttpResult J → Bool
  fails (response elapsed status (some body)) = false
  fails _ = true

  unfoldable pub failures : (String → HttpResult J) → List String → ℕ
  failures results [] = 0
  failures results (p ∷ ps) = (if fails (results p) then 1 else 0) + failures results ps

  request_answer : (result : HttpResult J) (r : Registry) → (request result r).1 ≡ answer_of result
  unfolding request answer_of
  request_answer (response elapsed status (some body)) r = refl
  request_answer (response elapsed status none) r = refl
  request_answer timed_out r = refl
  request_answer connector_error r = refl
  request_answer other_error r = refl

  request_counts :
      (result : HttpResult J) (name : String) (r : Registry)
      → counter_value name (request result r).0
        ≡ counter_value name r
          + ite (str_dec name "rpc_failures_total") (if fails result then 1 else 0) 0
  unfolding request fails count_failure
  request_counts (response elapsed status (some body)) name r =
      ground (arith, counter_value-observe_duration name elapsed r)
  request_counts (response elapsed status none) name r = ground (
    arith,
    counter_value-observe_duration name elapsed r,
    counter_value-observe_duration "rpc_failures_total" elapsed r,
    counter_value-count_up "rpc_failures_total" name 1 (observe_duration elapsed r),
  )
  request_counts timed_out name r =
      ground (arith, counter_value-count_up "rpc_failures_total" name 1 r)
  request_counts connector_error name r =
      ground (arith, counter_value-count_up "rpc_failures_total" name 1 r)
  request_counts other_error name r =
      ground (arith, counter_value-count_up "rpc_failures_total" name 1 r)

  module _ (m : MessagePassing) (results : String → HttpResult J)
      (started : m.session ≡ opened) where
    send_answer : (result : HttpResult J) (r : Registry) → (send m result r).1 ≡ answer_of result
    unfolding send
    send_answer result r =
        rw (started, send) (request_answer result (count_up "rpc_calls_total" 1 r))

    send_calls :
        (result : HttpResult J) (r : Registry)
        → counter_value "rpc_calls_total" (send m result r).0
          ≡ counter_value "rpc_calls_total" r + 1
    unfolding send
    send_calls result r =
        let r' = count_up "rpc_calls_total" 1 r in
        rw (started, send)
          (ground (
            arith,
            request_counts result "rpc_calls_total" r',
            other_counter,
            counter_value-count_up "rpc_calls_total" "rpc_calls_total" 1 r,
          ))

    send_failures :
        (result : HttpResult J) (r : Registry)
        → counter_value "rpc_failures_total" (send m result r).0
          ≡ counter_value "rpc_failures_total" r + (if fails result then 1 else 0)
    unfolding send
    send_failures result r =
        let r' = count_up "rpc_calls_total" 1 r in
        rw (started, send)
          (ground (
            arith,
            request_counts result "rpc_failures_total" r',
            other_counter,
            counter_value-count_up "rpc_calls_total" "rpc_failures_total" 1 r,
          ))

    send_all_answers :
        (p : String) (ps : List String) (r : Registry)
        → lookup p (send_all m results ps r).1
          ≡ (if contains p ps then some (answer_of (results p)) else none)
    unfolding send_all lookup contains
    send_all_answers p [] r = refl
    send_all_answers p (q ∷ ps) r =
        ground (arith, send_answer (results q) r, send_all_answers p ps (send m (results q) r).0)

    send_all_calls :
        (ps : List String) (r : Registry)
        → counter_value "rpc_calls_total" (send_all m results ps r).0
          ≡ counter_value "rpc_calls_total" r + length ps
    unfolding send_all
    send_all_calls [] r = omega arith
    send_all_calls (q ∷ ps) r =
        let r' = (send m (results q) r).0 in
        omega (arith, send_calls (results q) r, send_all_calls ps r')

    send_all-failures :
        (ps : List String) (r : Registry)
        → counter_value "rpc_failures_total" (send_all m results ps r).0
          ≡ counter_value "rpc_failures_total" r + failures results ps
    unfolding send_all failures
    send_all-failures [] r = omega arith
    send_all-failures (q ∷ ps) r =
        let r' = (send m (results q) r).0 in
        ground (arith, send_failures (results q) r, send_all-failures ps r')

    -- A broadcast of a node that is started has one answer for each of its peers and none for others: the
    -- body of a response with status 200 that can be read, and None otherwise. It counts one call for
    -- each peer, however often it is listed, and one failure for each that raises an exception, so
    -- none for a response with another status.
    pub broadcast_lem :
        (peers : List String) (r : Registry)
        → let (r', answers) = broadcast m results peers r in
          ((p : String)
            → lookup p answers ≡ (if contains p peers then some (answer_of (results p)) else none))
          × (counter_value "rpc_calls_total" r'
              ≡ counter_value "rpc_calls_total" r + length (union [] peers))
          × (counter_value "rpc_failures_total" r'
              ≡ counter_value "rpc_failures_total" r + failures results (union [] peers))
    unfolding broadcast
    broadcast_lem peers r = (
      λ p.
          ground
            (arith, send_all_answers p (union [] peers) r, contains-union p [] peers, nothing_in p),
      send_all_calls (union [] peers) r,
      send_all-failures (union [] peers) r,
    )
