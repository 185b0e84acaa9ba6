-- ===== src/Lock/State.antt =====
-- The data of src/nodes/lock_manager.py. A set of clients is a list without repetition, in the order
-- in which its loops run; times are whole numbers.
use distributed_sync_system.Base.{
  ℕ, Bool, true, false, ◌&&◌, Option, none, some, List, [], ◌∷◌, String, Dict, ite, str_dec,
}
use distributed_sync_system.Metrics.{Registry}

pub data LockType : Type 0 where
  shared exclusive : LockType

-- `LockType(name)`; `none` is a ValueError.
unfoldable pub lock_type_of : String → Option LockType
lock_type_of name =
    ite (str_dec name "shared") (some shared) (ite (str_dec name "exclusive") (some exclusive) none)

pub record LockRequest : Type 0 where
  pub request_id : String
  pub lock_id : String
  pub client_id : String
  pub lock_type : LockType
  pub timestamp : ℕ
  pub timeout : ℕ

pub record LockState : Type 0 where
  pub lock_id : String
  pub shared_holders : List String
  pub exclusive_holder : Option String
  pub waiting_queue : List LockRequest

unfoldable pub new_lock : String → LockState
new_lock lock_id = record {
  lock_id = lock_id;
  shared_holders = [];
  exclusive_holder = none;
  waiting_queue = [];
}

abbrev pub is_none {ℓ} : {A : Type ℓ} → Option A → Bool
is_none none = true
is_none (some a) = false

abbrev pub is_empty {ℓ} : {A : Type ℓ} → List A → Bool
is_empty [] = true
is_empty (x ∷ xs) = false

unfoldable pub is_free : LockState → Bool
is_free ls = is_empty ls.shared_holders && is_none ls.exclusive_holder

unfoldable pub can_acquire_shared : LockState → Bool
can_acquire_shared ls = is_none ls.exclusive_holder

unfoldable pub can_acquire_exclusive : LockState → Bool
unfolding is_free
can_acquire_exclusive ls = is_free ls

-- `holder == client`
unfoldable pub is_held_by : Option String → String → Bool
is_held_by none client = false
is_held_by (some c) client = ite (str_dec c client) true false

pub record LockManager : Type 0 where
  pub locks : Dict LockState
  pub client_requests : Dict LockRequest
  pub wait_for : Dict (List String)
  pub metrics : Registry

unfoldable pub init : Registry → LockManager
init metrics = record { locks = []; client_requests = []; wait_for = []; metrics = metrics }
