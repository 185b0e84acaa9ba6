-- ===== src/Detector/Misses.antt =====
-- What the detector of src/communication/failure_detector.py says of a peer, against the misses in a
-- row that the events show.
use distributed_sync_system.Base.{
  ℕ, suc, ◌<◌, ◌≡◌, refl, Bool, true, false, none, some, List, [], ◌∷◌, String, Dict, lookup,
  insert, lookup-insert, leb, ◌==◌, if◌then◌else◌, returned, ite, str_dec, contains, arith, ◌∙◌,
}
use distributed_sync_system.Detector.State.{
  is_alive_status, alive, on_suspect, on_recover, FailureDetector, for_each, init, status_after,
  probe, record_alive, Event, probed, heard, run, is_alive,
}

-- The misses of the peer in a row, after the events, from a number of them before.
unfoldable pub misses_after : String → List Event → ℕ → ℕ
misses_after p [] k = k
misses_after p (probed peer answered now ∷ es) k =
    misses_after p es (ite (str_dec p peer) (if answered then 0 else suc k) k)
misses_after p (heard peer now ∷ es) k = misses_after p es (ite (str_dec p peer) 0 k)

-- What the detector has of a peer with the given misses in a row.
pub record Shows (p : String) (k : ℕ) (d : FailureDetector) : Type 0 where
  pub counted : lookup p d.miss_counts ≡ some k
  pub shown : lookup p d.status ≡ some (status_after d.suspect_threshold d.dead_threshold k)

-- Both thresholds are positive.
abbrev pub HasThresholds : FailureDetector → Type 0
HasThresholds d = (0 < d.suspect_threshold) × (0 < d.dead_threshold)

status_after_none : (s t : ℕ) → 0 < s → 0 < t → status_after s t 0 ≡ alive
unfolding status_after
status_after_none s t a b = ground arith

probe-Shows :
    (p peer : String) (answered : Bool) (now k : ℕ) (d : FailureDetector)
    → HasThresholds d
    → Shows p k d
    → Shows p (ite (str_dec p peer) (if answered then 0 else suc k) k) (probe peer answered now d).0
unfolding probe
probe-Shows p peer answered now k d h s =
    grind (arith, lookup-insert, status_after_none, s.counted, s.shown)

record_alive-Shows :
    (p peer : String) (now k : ℕ) (d : FailureDetector)
    → HasThresholds d
    → Shows p k d
    → Shows p (ite (str_dec p peer) 0 k) (record_alive peer now d).0
unfolding record_alive
record_alive-Shows p peer now k d h s =
    grind (arith, lookup-insert, status_after_none, s.counted, s.shown)

probe-thresholds :
    (peer : String) (answered : Bool) (now : ℕ) (d : FailureDetector)
    → let d' = (probe peer answered now d).0 in
      (d'.suspect_threshold ≡ d.suspect_threshold) × (d'.dead_threshold ≡ d.dead_threshold)
unfolding probe
probe-thresholds peer answered now d = ground arith

record_alive-thresholds :
    (peer : String) (now : ℕ) (d : FailureDetector)
    → let d' = (record_alive peer now d).0 in
      (d'.suspect_threshold ≡ d.suspect_threshold) × (d'.dead_threshold ≡ d.dead_threshold)
unfolding record_alive
record_alive-thresholds peer now d = ground arith

run-Shows :
    (es : List Event) (p : String) (k : ℕ) (d : FailureDetector)
    → HasThresholds d
    → Shows p k d
    → Shows p (misses_after p es k) (run es d)
      × ((run es d).suspect_threshold ≡ d.suspect_threshold)
      × ((run es d).dead_threshold ≡ d.dead_threshold)
unfolding run misses_after
run-Shows [] p k d h s = (s, refl, refl)
run-Shows (probed peer answered now ∷ es) p k d h s =
    let (a, b) = probe-thresholds peer answered now d in
    let (s', a', b') =
      run-Shows es p (ite (str_dec p peer) (if answered then 0 else suc k) k)
        (probe peer answered now d).0 (omega (arith, a, h.0), omega (arith, b, h.1))
        (probe-Shows p peer answered now k d h s) in
    (s', a' ∙ a, b' ∙ b)
run-Shows (heard peer now ∷ es) p k d h s =
    let (a, b) = record_alive-thresholds peer now d in
    let (s', a', b') =
      run-Shows es p (ite (str_dec p peer) 0 k) (record_alive peer now d).0
        (omega (arith, a, h.0), omega (arith, b, h.1)) (record_alive-Shows p peer now k d h s) in
    (s', a' ∙ a, b' ∙ b)

pub lookup-for_each :
    {V : Type 0} (p : String) (ps : List String) (v : V) (d : Dict V)
    → lookup p (for_each ps v d) ≡ (if contains p ps then some v else lookup p d)
unfolding for_each contains
lookup-for_each p [] v d = refl
lookup-for_each p (q ∷ ps) v d =
    ground (arith, lookup-for_each p ps v (insert q v d), lookup-insert q p v d)

init-Shows :
    (peers : List String) (suspect_threshold dead_threshold now : ℕ) (p : String)
    → 0 < suspect_threshold
    → 0 < dead_threshold
    → contains p peers ≡ true
    → Shows p 0 (init peers suspect_threshold dead_threshold now)
unfolding init
init-Shows peers s t now p a b c = ground (
  arith,
  lookup-for_each {V = ℕ} p peers 0 [],
  lookup-for_each p peers alive [],
  status_after_none s t a b,
)

init-thresholds :
    (peers : List String) (s t now : ℕ)
    → ((init peers s t now).suspect_threshold ≡ s) × ((init peers s t now).dead_threshold ≡ t)
unfolding init
init-thresholds peers s t now = (refl, refl)

status_after_alive :
    (s t k : ℕ)
    → is_alive_status (status_after s t k)
      ≡ (if leb t k then false else if leb s k then false else true)
unfolding status_after
status_after_alive s t k = ground arith

-- After any probes and other news since the start, a detector with positive thresholds has of each of
-- its peers the number of its misses in a row, and shows the status that this number stands for: dead
-- from the one threshold on, else suspected from the other on, else alive.
pub run-status :
    (peers : List String) (suspect_threshold dead_threshold now : ℕ) (es : List Event) (p : String)
    → 0 < suspect_threshold
    → 0 < dead_threshold
    → contains p peers ≡ true
    → let d = run es (init peers suspect_threshold dead_threshold now) in
      let k = misses_after p es 0 in
      (lookup p d.miss_counts ≡ some k)
      × (lookup p d.status ≡ some (status_after suspect_threshold dead_threshold k))
      × (is_alive p d ≡ (
          if leb dead_threshold k then false else if leb suspect_threshold k then false else true))
unfolding is_alive
run-status peers s t now es p a b c =
    let start = init peers s t now in
    let (s₀, t₀) = init-thresholds peers s t now in
    let (shows, s', t') =
      run-Shows es p 0 start (omega (arith, s₀, a), omega (arith, t₀, b))
        (init-Shows peers s t now p a b c) in
    let status : lookup p (run es start).status ≡ some (status_after s t (misses_after p es 0)) =
      ground (arith, shows.shown, s', t', s₀, t₀) in
    (shows.counted, status, rw (status, is_alive) (status_after_alive s t (misses_after p es 0)))

-- A probe of a peer with the given misses in a row calls back when it goes over to suspected, once on
-- the way down if the peer is suspected before it is dead, and when it comes back from there.
pub probe-notice :
    (p : String) (answered : Bool) (now k : ℕ) (d : FailureDetector)
    → 0 < d.suspect_threshold
    → d.suspect_threshold < d.dead_threshold
    → Shows p k d
    → (probe p answered now d).1
      ≡ returned (
          if answered
          then (if leb d.suspect_threshold k then some (on_recover p) else none)
          else if suc k == d.suspect_threshold
          then some (on_suspect p)
          else none)
unfolding probe status_after
probe-notice p answered now k d a b s = ground (arith, s.counted, s.shown)
