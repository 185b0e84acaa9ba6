-- ===== src/Detector/Tests.antt =====
-- Runs of the failure detector of src/communication/failure_detector.py.
use distributed_sync_system.Base.{
  leb, ◌≡◌, refl, if◌then◌else◌, none, true, false, some, List, [], ◌∷◌, lookup, insert, contains,
  str_dec, arith, returned, String, Dict,
}
use distributed_sync_system.Detector.State.{
  FailureDetector, suspected, dead, alive, on_suspect, for_each, init, status_after, probe_answered,
  probe_missed, probe, record_alive, Event, probed, run, is_alive,
}
use distributed_sync_system.Detector.Status.{PeerReport, suspected_peers, get_status}
use distributed_sync_system.Detector.Reported.{count_and_status, run-get_status}
use distributed_sync_system.Detector.Misses.{misses_after, run-status, probe-notice}

program : Unit {0}
unfolding str_dec lookup insert contains for_each init status_after probe_answered probe_missed
    probe record_alive run is_alive misses_after
program = tt

-- Three misses after a success.
abbrev events : List Event
events =
    probed "a" false 1
    ∷ probed "a" true 2
    ∷ probed "b" true 2
    ∷ probed "a" false 3
    ∷ probed "a" false 4
    ∷ probed "a" false 5
    ∷ []

run-status_example :
    let d = run events (init ("a" ∷ "b" ∷ []) 3 6 0) in
    (lookup "a" d.miss_counts ≡ some 3)
    × (lookup "a" d.status ≡ some suspected)
    × (is_alive "a" d ≡ false)
unfolding program
run-status_example = run-status ("a" ∷ "b" ∷ []) 3 6 0 events "a" (omega arith) (omega arith) refl

abbrev wavering : FailureDetector
unfolding program
wavering = run (probed "a" false 3 ∷ probed "a" false 4 ∷ []) (init ("a" ∷ "b" ∷ []) 3 6 0)

noticed : (probe "a" false 5 wavering).1 ≡ returned (some (on_suspect "a"))
unfolding program
noticed =
    probe-notice "a" false 5 2 wavering (omega arith) (omega arith)
      (record { counted = refl; shown = refl })

suspects : suspected_peers wavering ≡ []
unfolding program suspected_peers
suspects = refl

-- The three misses of `a` make it suspected; `b` was heard of last.
shown : suspected_peers (run events (init ("a" ∷ "b" ∷ []) 3 6 0)) ≡ "a" ∷ []
unfolding program suspected_peers
shown = refl

run-get_status_example :
    (reports : Dict PeerReport) × (get_status 9 (run events (init ("a" ∷ "b" ∷ []) 3 6 0))
      ≡ returned reports)
    × ((p : String)
        → count_and_status (lookup p reports) ≡ (
            if contains p ("a" ∷ "b" ∷ [])
            then some (
              misses_after p events 0,
              if leb 6 (misses_after p events 0)
                  then dead
                  else if leb 3 (misses_after p events 0)
                  then suspected
                  else alive,
            )
            else none))
run-get_status_example = run-get_status ("a" ∷ "b" ∷ []) 3 6 0 9 events (omega arith) (omega arith)
