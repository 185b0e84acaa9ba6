-- ===== src/Detector/Status.antt =====
-- `suspected_peers` and `get_status` of src/communication/failure_detector.py. The source rounds the time since
-- a peer was seen.
use distributed_sync_system.Base.{
  ℕ, Bool, true, false, Option, none, some, List, [], ◌∷◌, String, Dict, lookup, insert, ℤ, pos,
  ◌-ℤ◌, if◌then◌else◌, Outcome, returned, raised, key_error,
}
use distributed_sync_system.Detector.State.{NodeStatus, suspected, FailureDetector}

abbrev pub is_suspected_status : NodeStatus → Bool
is_suspected_status suspected = true
is_suspected_status _ = false

-- `status.get(peer) == NodeStatus.SUSPECTED`
unfoldable pub is_suspected : String → FailureDetector → Bool
is_suspected peer d = elim (lookup peer d.status) [ none ↦ false | some s ↦ is_suspected_status s ]

unfoldable pub suspected_among : List String → FailureDetector → List String
unfolding is_suspected
suspected_among [] d = []
suspected_among (p ∷ ps) d =
    let rest = suspected_among ps d in if is_suspected p d then p ∷ rest else rest

unfoldable pub suspected_peers : FailureDetector → List String
unfolding suspected_among
suspected_peers d = suspected_among d.peers d

pub record PeerReport : Type 0 where
  pub status : NodeStatus
  pub miss_count : ℕ
  pub last_seen_ago : ℤ

-- `none` is a KeyError.
unfoldable pub report_peer : String → ℕ → FailureDetector → Option PeerReport
unfolding ◌-ℤ◌
report_peer peer now d = elim (lookup peer d.status) [
  | none ↦ none
  | some status ↦ elim (lookup peer d.miss_counts) [
    | none ↦ none
    | some misses ↦ elim (lookup peer d.last_seen) [
      | none ↦ none
      | some seen ↦
          some
            (record { status = status; miss_count = misses; last_seen_ago = pos now -ℤ pos seen })
    ]
  ]
]

unfoldable pub report_all :
    List String → ℕ → FailureDetector → Dict PeerReport → Outcome (Dict PeerReport)
unfolding report_peer
report_all [] now d reports = returned reports
report_all (p ∷ ps) now d reports = elim (report_peer p now d) [
  | none ↦ raised key_error
  | some r ↦ report_all ps now d (insert p r reports)
]

unfoldable pub get_status : ℕ → FailureDetector → Outcome (Dict PeerReport)
unfolding report_all
get_status now d = report_all d.peers now d []
