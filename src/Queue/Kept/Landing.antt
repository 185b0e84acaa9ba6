-- ===== src/Queue/Kept/Landing.antt =====
-- A message of src/nodes/queue_node.py whose time is over does not stay in flight.
use distributed_sync_system.Base.{
  ℕ, ◌≡◌, ◌⊎◌, true, false, none, some, List, String, contains, lookup,
}
use distributed_sync_system.Queue.Keys.{in_flight_key, has_colon}
use distributed_sync_system.Queue.Store.{Redis}
use distributed_sync_system.Queue.Message.{Codec, Message}
use distributed_sync_system.Queue.Kept.{Kept}
use distributed_sync_system.Queue.Kept.Sound.{Sound}

module _ {J : Type 0} (codec : Codec J) (db : Redis) (max_retries : ℕ) where
  module _ (q i : String) (plain : has_colon q ≡ false) where
    abbrev K : db.Store → Type 0
    K = Kept codec db max_retries q i

    abbrev Gone : db.Store → Type 0
    Gone s = lookup i (db.scores (in_flight_key q) s) ≡ none

    module _ (t : ℕ) where
      -- In flight until `t`, or no longer.
      abbrev Ending : db.Store → Type 0
      Ending s = (lookup i (db.scores (in_flight_key q) s) ≡ some t) ⊎ Gone s

      -- The keys that are left are of the pattern.
      abbrev Listed : List String → Type 0
      Listed keys =
          (key : String) → contains key keys ≡ true → (p : String) × (key ≡ in_flight_key p)
