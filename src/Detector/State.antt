-- ===== src/Detector/State.antt =====
-- The state and the operations of src/communication/failure_detector.py. A probe's ping is an argument,
-- `false` where it raised; the callback that it starts is its result.
use distributed_sync_system.Base.{
  ℕ, suc, Bool, true, false, Option, none, some, List, [], ◌∷◌, String, Dict, lookup, insert, leb,
  if◌then◌else◌, Outcome, returned, raised, key_error,
}

pub data NodeStatus : Type 0 where
  alive suspected dead : NodeStatus

pub data Notice : Type 0 where
  on_suspect on_recover : String → Notice

pub record FailureDetector : Type 0 where
  pub peers : List String
  pub suspect_threshold : ℕ
  pub dead_threshold : ℕ
  pub miss_counts : Dict ℕ
  pub status : Dict NodeStatus
  pub last_seen : Dict ℕ

abbrev pub is_alive_status : NodeStatus → Bool
is_alive_status alive = true
is_alive_status _ = false

-- `{p: v for p in peers}`
unfoldable pub for_each {ℓ} : {V : Type ℓ} → List String → V → Dict V → Dict V
for_each [] v d = d
for_each (p ∷ ps) v d = for_each ps v (insert p v d)

unfoldable pub init : List String → ℕ → ℕ → ℕ → FailureDetector
unfolding for_each
init peers suspect_threshold dead_threshold now = record {
  peers = peers;
  suspect_threshold = suspect_threshold;
  dead_threshold = dead_threshold;
  miss_counts = for_each peers 0 [];
  status = for_each peers alive [];
  last_seen = for_each peers now [];
}

-- The status that a number of misses stands for.
unfoldable pub status_after : ℕ → ℕ → ℕ → NodeStatus
status_after suspect_threshold dead_threshold misses =
    if leb dead_threshold misses
    then dead
    else if leb suspect_threshold misses
    then suspected
    else alive

-- `new_status != prev_status`
abbrev pub differs : NodeStatus → NodeStatus → Bool
differs alive alive = false
differs suspected suspected = false
differs dead dead = false
differs _ _ = true

abbrev pub suspicion : String → NodeStatus → Option Notice
suspicion peer suspected = some (on_suspect peer)
suspicion peer _ = none

-- The branch of a ping that was answered.
unfoldable pub probe_answered :
    String → ℕ → NodeStatus → FailureDetector → FailureDetector × Option Notice
probe_answered peer now prev d =
    let seen = record d {
      miss_counts = insert peer 0 d.miss_counts;
      last_seen = insert peer now d.last_seen;
    } in
    if is_alive_status prev
    then (seen, none)
    else (record seen { status = insert peer alive d.status }, some (on_recover peer))

-- The branch of a ping that was not.
unfoldable pub probe_missed :
    String → ℕ → NodeStatus → FailureDetector → FailureDetector × Option Notice
unfolding status_after
probe_missed peer misses prev d =
    let counted = record d { miss_counts = insert peer misses d.miss_counts } in
    let new = status_after d.suspect_threshold d.dead_threshold misses in
    if differs new prev
    then (record counted { status = insert peer new d.status }, suspicion peer new)
    else (counted, none)

unfoldable pub probe :
    String → Bool → ℕ → FailureDetector → FailureDetector × Outcome (Option Notice)
unfolding probe_answered probe_missed
probe peer answered now d = elim (lookup peer d.status) [
  | none ↦ (d, raised key_error)
  | some prev ↦
      if answered
      then (let r = probe_answered peer now prev d in (r.0, returned r.1))
      else elim (lookup peer d.miss_counts) [
        | none ↦ (d, raised key_error)
        | some misses ↦ let r = probe_missed peer (suc misses) prev d in (r.0, returned r.1)
      ]
]

unfoldable pub is_alive : String → FailureDetector → Bool
is_alive peer d = elim (lookup peer d.status) [ none ↦ false | some s ↦ is_alive_status s ]

unfoldable pub alive_among : List String → FailureDetector → List String
unfolding is_alive
alive_among [] d = []
alive_among (p ∷ ps) d = let rest = alive_among ps d in if is_alive p d then p ∷ rest else rest

unfoldable pub alive_peers : FailureDetector → List String
unfolding alive_among
alive_peers d = alive_among d.peers d

-- A peer that was heard of otherwise.
unfoldable pub record_alive :
    String → ℕ → FailureDetector → FailureDetector × Outcome (Option Notice)
record_alive peer now d = elim (lookup peer d.miss_counts) [
  | none ↦ (d, returned none)
  | some misses ↦ elim (lookup peer d.status) [
    | none ↦ (d, raised key_error)
    | some prev ↦ (
      record d {
        miss_counts = insert peer 0 d.miss_counts;
        last_seen = insert peer now d.last_seen;
        status = insert peer alive d.status;
      },
      returned (if is_alive_status prev then none else some (on_recover peer)),
    )
  ]
]

pub data Event : Type 0 where
  probed : String → Bool → ℕ → Event
  heard : String → ℕ → Event

unfoldable pub run : List Event → FailureDetector → FailureDetector
unfolding probe record_alive
run [] d = d
run (probed peer answered now ∷ es) d = run es (probe peer answered now d).0
run (heard peer now ∷ es) d = run es (record_alive peer now d).0
