-- ===== src/Detector/Reported.antt =====
-- The report of the failure detector of src/communication/failure_detector.py after any events.
use distributed_sync_system.Base.{
  leb, ℕ, ◌<◌, ◌≡◌, refl, Bool, true, false, Option, none, some, List, [], ◌∷◌, String, Dict,
  lookup, insert, lookup-insert, pos, ◌-ℤ◌, if◌then◌else◌, returned, contains, arith, ◌∙◌, ap,
}
use distributed_sync_system.Detector.State.{
  NodeStatus, alive, suspected, dead, FailureDetector, init, status_after, probe_answered,
  probe_missed, probe, record_alive, Event, probed, heard, run,
}
use distributed_sync_system.Detector.Misses.{misses_after, run-status, lookup-for_each}
use distributed_sync_system.Detector.Status.{PeerReport, report_peer, report_all, get_status}

unfoldable pub is_there {ℓ} : {A : Type ℓ} → Option A → Bool
is_there none = false
is_there (some a) = true

there-insert {ℓ} :
    {V : Type ℓ} (p q : String) (v : V) (d : Dict V)
    → is_there (lookup p d) ≡ true
    → is_there (lookup p (insert q v d)) ≡ true
unfolding is_there
there-insert p q v d h = ground (arith, lookup-insert q p v d, h)

probe-peers :
    (peer : String) (answered : Bool) (now : ℕ) (d : FailureDetector)
    → (probe peer answered now d).0.peers ≡ d.peers
unfolding probe probe_answered probe_missed
probe-peers peer answered now d = ground arith

record_alive-peers :
    (peer : String) (now : ℕ) (d : FailureDetector) → (record_alive peer now d).0.peers ≡ d.peers
unfolding record_alive
record_alive-peers peer now d = ground arith

probe-seen :
    (p peer : String) (answered : Bool) (now : ℕ) (d : FailureDetector)
    → is_there (lookup p d.last_seen) ≡ true
    → is_there (lookup p (probe peer answered now d).0.last_seen) ≡ true
unfolding probe probe_answered probe_missed
probe-seen p peer answered now d h = ground (arith, h, there-insert p peer now d.last_seen h)

record_alive-seen :
    (p peer : String) (now : ℕ) (d : FailureDetector)
    → is_there (lookup p d.last_seen) ≡ true
    → is_there (lookup p (record_alive peer now d).0.last_seen) ≡ true
unfolding record_alive
record_alive-seen p peer now d h = ground (arith, h, there-insert p peer now d.last_seen h)

run-peers : (es : List Event) (d : FailureDetector) → (run es d).peers ≡ d.peers
unfolding run
run-peers [] d = refl
run-peers (probed peer answered now ∷ es) d =
    run-peers es (probe peer answered now d).0 ∙ probe-peers peer answered now d
run-peers (heard peer now ∷ es) d =
    run-peers es (record_alive peer now d).0 ∙ record_alive-peers peer now d

init-peers : (peers : List String) (s t now : ℕ) → (init peers s t now).peers ≡ peers
unfolding init
init-peers peers s t now = refl

run-seen :
    (p : String) (es : List Event) (d : FailureDetector)
    → is_there (lookup p d.last_seen) ≡ true
    → is_there (lookup p (run es d).last_seen) ≡ true
unfolding run
run-seen p [] d h = h
run-seen p (probed peer answered now ∷ es) d h =
    run-seen p es (probe peer answered now d).0 (probe-seen p peer answered now d h)
run-seen p (heard peer now ∷ es) d h =
    run-seen p es (record_alive peer now d).0 (record_alive-seen p peer now d h)

init-seen :
    (peers : List String) (s t now : ℕ) (p : String)
    → contains p peers ≡ true
    → is_there (lookup p (init peers s t now).last_seen) ≡ true
unfolding init is_there
init-seen peers s t now p h = ground (arith, h, lookup-for_each {V = ℕ} p peers now [])

-- The last time that a peer was seen, where it is known.
unfoldable seen_or_start : Option ℕ → ℕ
seen_or_start none = 0
seen_or_start (some seen) = seen

unfoldable expected : ℕ → ℕ → List Event → FailureDetector → ℕ → String → PeerReport
unfolding seen_or_start
expected s t es d now p = record {
  status = status_after s t (misses_after p es 0);
  miss_count = misses_after p es 0;
  last_seen_ago = pos now -ℤ pos (seen_or_start (lookup p d.last_seen));
}

report_peer_lem :
    (p : String) (now k : ℕ) (st : NodeStatus) (d : FailureDetector)
    → lookup p d.status ≡ some st
    → lookup p d.miss_counts ≡ some k
    → is_there (lookup p d.last_seen) ≡ true
    → report_peer p now d
      ≡ some (record {
        status = st;
        miss_count = k;
        last_seen_ago = pos now -ℤ pos (seen_or_start (lookup p d.last_seen));
      })
unfolding report_peer is_there seen_or_start
report_peer_lem p now k st d a b c = ground (arith, a, b, c)

report_all_next :
    (p : String) (ps : List String) (now : ℕ) (d : FailureDetector) (acc : Dict PeerReport)
    (r : PeerReport)
    → report_peer p now d ≡ some r
    → report_all (p ∷ ps) now d acc ≡ report_all ps now d (insert p r acc)
unfolding report_all
report_all_next p ps now d acc r h = rw (report_all, h) refl

report_all_lem :
    (ps : List String) (now : ℕ) (d : FailureDetector) (acc : Dict PeerReport)
    (f : String → PeerReport)
    → ((q : String) → contains q ps ≡ true → report_peer q now d ≡ some (f q))
    → (reports : Dict PeerReport) × (report_all ps now d acc ≡ returned reports)
      × ((q : String) → lookup q reports ≡ (if contains q ps then some (f q) else lookup q acc))
unfolding contains report_all
report_all_lem [] now d acc f h = (acc, refl, λ q. refl)
report_all_lem (p ∷ ps) now d acc f h =
    let (reports, e, shows) =
      report_all_lem ps now d (insert p (f p) acc) f (λ q m. h q (ground (arith, m))) in
    (
      reports,
      report_all_next p ps now d acc (f p) (h p (ground arith)) ∙ e,
      λ q. ground (arith, shows q, lookup-insert p q (f p) acc),
    )

-- What a report says of the peer's misses.
unfoldable pub count_and_status : Option PeerReport → Option (ℕ × NodeStatus)
count_and_status none = none
count_and_status (some r) = some (r.miss_count, r.status)

count_and_status-if :
    (b : Bool) (r : PeerReport)
    → count_and_status (if b then some r else none)
      ≡ (if b then some (r.miss_count, r.status) else none)
unfolding count_and_status
count_and_status-if true r = refl
count_and_status-if false r = refl

-- The status that a number of misses in a row stands for.
abbrev status_for : ℕ → ℕ → ℕ → NodeStatus
status_for s t k = if leb t k then dead else if leb s k then suspected else alive

status_after-status_for : (s t k : ℕ) → status_after s t k ≡ status_for s t k
unfolding status_after
status_after-status_for s t k = ground arith

-- After any probes and other news since the start, the report of a detector with positive thresholds does
-- not fail; it has an entry for each of its peers and for no other, with the number of the peer's misses
-- in a row and the status: dead from the dead threshold on, else suspected from the suspect threshold on,
-- else alive.
pub run-get_status :
    (peers : List String) (suspect_threshold dead_threshold start now : ℕ) (es : List Event)
    → 0 < suspect_threshold
    → 0 < dead_threshold
    → (reports : Dict PeerReport) × (get_status now
          (run es (init peers suspect_threshold dead_threshold start))
        ≡ returned reports)
      × ((p : String)
          → count_and_status (lookup p reports) ≡ (
              if contains p peers
              then some (
                misses_after p es 0,
                if leb dead_threshold (misses_after p es 0)
                    then dead
                    else if leb suspect_threshold (misses_after p es 0)
                    then suspected
                    else alive,
              )
              else none))
unfolding get_status expected lookup
run-get_status peers s t start now es a b =
    let d : FailureDetector = run es (init peers s t start) in
    let same : d.peers ≡ peers = run-peers es (init peers s t start) ∙ init-peers peers s t start in
    let (reports, e, shows) = report_all_lem peers now d [] (expected s t es d now) (λ q m.
      let (counted, status, _) = run-status peers s t start es q a b m in
      report_peer_lem q now (misses_after q es 0) (status_after s t (misses_after q es 0)) d status
        counted (run-seen q es (init peers s t start) (init-seen peers s t start q m))) in
    (
      reports,
      ap (λ ps. report_all ps now d []) same ∙ e,
      λ p.
          ap count_and_status (shows p)
          ∙ count_and_status-if (contains p peers) (expected s t es d now p)
          ∙ ap (λ st. if contains p peers then some (misses_after p es 0, st) else none)
              (status_after-status_for s t (misses_after p es 0)),
    )
