-- ===== src/Messages/Calls.antt =====
-- `MessagePassing` of src/communication/message_passing.py and what `BaseNode` makes of it. A duration is
-- a number of milliseconds.
use distributed_sync_system.Base.{
  ℕ, Bool, true, false, Option, none, some, List, [], ◌∷◌, String, Dict, insert, union, ◌==◌,
  if◌then◌else◌, Outcome,
}
use distributed_sync_system.Metrics.{Registry, histogram, count_up}
use distributed_sync_system.Metrics.Histograms.{observe}
use distributed_sync_system.Detector.State.{FailureDetector, Notice, probe}

pub data Session : Type 0 where
  absent opened closed : Session

pub record MessagePassing : Type 0 where
  pub node_id : String
  pub session : Session

-- What becomes of a request: a response with its duration, status and body, or an exception. A body of
-- `none` raises when it is read.
pub data HttpResult (J : Type 0) : Type 0 where
  response : (elapsed status : ℕ) → Option J → HttpResult J
  timed_out connector_error other_error : HttpResult J

unfoldable pub init : String → MessagePassing
init node_id = record { node_id = node_id; session = absent }

unfoldable pub start : MessagePassing → MessagePassing
start m = record m { session = opened }

unfoldable pub stop : MessagePassing → MessagePassing
stop m = elim m.session [ opened ↦ record m { session = closed } | _ ↦ m ]

-- `metrics.histogram("rpc_duration_seconds").observe(elapsed)`
unfoldable pub observe_duration : ℕ → Registry → Registry
unfolding histogram observe
observe_duration elapsed r =
    let (r', h) = histogram "rpc_duration_seconds" "" r in
    record r' { histograms = insert "rpc_duration_seconds" (observe elapsed h) r'.histograms }

unfoldable pub count_failure : Registry → Registry
count_failure = count_up "rpc_failures_total" 1

module _ {J : Type 0} where
  -- The body of the `try`, with its handlers.
  unfoldable pub request : HttpResult J → Registry → Registry × Option J
  unfolding observe_duration count_failure
  request (response elapsed status (some body)) r =
      (observe_duration elapsed r, if status == 200 then some body else none)
  request (response elapsed status none) r = (count_failure (observe_duration elapsed r), none)
  request timed_out r = (count_failure r, none)
  request connector_error r = (count_failure r, none)
  request other_error r = (count_failure r, none)

  unfoldable pub send : MessagePassing → HttpResult J → Registry → Registry × Option J
  unfolding request
  send m result r = elim m.session [
    | opened ↦ request result (count_up "rpc_calls_total" 1 r)
    | absent ↦ (r, none)
    | closed ↦ (r, none)
  ]

  -- The sends to the peers in order, with what becomes of each.
  unfoldable pub send_all :
      MessagePassing → (String → HttpResult J) → List String → Registry → Registry × Dict (Option J)
  unfolding send
  send_all m results [] r = (r, [])
  send_all m results (p ∷ ps) r =
      let (r', answer) = send m (results p) r in
      let (r'', answers) = send_all m results ps r' in (r'', (p, answer) ∷ answers)

  -- A peer that is listed twice has one task.
  unfoldable pub broadcast :
      MessagePassing → (String → HttpResult J) → List String → Registry → Registry × Dict (Option J)
  unfolding send_all
  broadcast m results peers r = send_all m results (union [] peers) r

  -- `_ping_peer`
  unfoldable pub ping_peer : MessagePassing → HttpResult J → Registry → Registry × Bool
  unfolding send
  ping_peer m result r =
      let (r', answer) = send m result r in (r', elim answer [ none ↦ false | some _ ↦ true ])

  -- A probe of the failure detector with the node's ping.
  unfoldable pub probe_peer :
      MessagePassing
      → String
      → HttpResult J
      → ℕ
      → FailureDetector
      → Registry
      → Registry × FailureDetector × Outcome (Option Notice)
  unfolding ping_peer probe
  probe_peer m peer result now d r =
      let (r', answered) = ping_peer m result r in
      let (d', notice) = probe peer answered now d in (r', d', notice)
