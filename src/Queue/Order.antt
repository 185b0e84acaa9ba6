-- ===== src/Queue/Order.antt =====
-- The queue of src/nodes/queue_node.py as a first-in first-out queue of messages.
pub mod Matching
pub mod Answers
use mathlib.Core.Option.{some-injective}
use distributed_sync_system.Base.{
  contains, Distinct, arith, true, false, String, ℕ, ◌+◌, ◌≡◌, refl, ap, subst, Option, none, some,
  List, [], ◌∷◌, map, String, All, Outcome, returned,
}
use distributed_sync_system.Queue.Store.{Redis, last_of, but_last}
use distributed_sync_system.Queue.Message.{Codec, Message}
use distributed_sync_system.Queue.Node.{
  QueueNode, ConsumeReply, empty, delivered, store_message, consume, mark_in_flight,
}

pub data QueueCall (J : Type 0) : Type 0 where
  enqueue : Message J → QueueCall J
  dequeue : (ack_timeout now later : ℕ) → QueueCall J

-- What a consumer gets of the oldest message.
abbrev pub taken : {J : Type 0} → ℕ → ℕ → Option (Message J) → Option (Message J)
taken now deadline none = none
taken now deadline (some m) = some (mark_in_flight now deadline m)

-- The specification: the messages that wait, the newest first, and what each call answers.
unfoldable pub fifo :
    {J : Type 0} → List (QueueCall J) → List (Message J) → List (Option (Message J))
fifo [] ms = []
fifo (enqueue m ∷ cs) ms = fifo cs (m ∷ ms)
fifo (dequeue ack_timeout now later ∷ cs) ms =
    taken now (later + ack_timeout) (last_of ms) ∷ fifo cs (but_last ms)

-- The messages that the calls put.
abbrev pub enqueued : {J : Type 0} → List (QueueCall J) → List (Message J)
enqueued [] = []
enqueued (enqueue m ∷ cs) = m ∷ enqueued cs
enqueued (dequeue _ _ _ ∷ cs) = enqueued cs

module _ {J : Type 0} (codec : Codec J) (db : Redis) (queue : String) where
  -- What the node answers to the calls for the queue.
  unfoldable pub answers : List (QueueCall J) → QueueNode db.Store → List (Outcome (ConsumeReply J))
  answers [] n = []
  answers (enqueue m ∷ cs) n = answers cs (store_message codec db m n)
  answers (dequeue ack_timeout now later ∷ cs) n =
      let (n', reply) = consume codec db queue ack_timeout now later n in reply ∷ answers cs n'

abbrev pub reply_of : {J : Type 0} → String → Option (Message J) → Outcome (ConsumeReply J)
reply_of queue none = returned (empty queue)
reply_of queue (some m) = returned (delivered m)

module _ {A B : Type 0} (f : A → B) where
  pub last_of-map : (xs : List A) (x : A) → last_of xs ≡ some x → last_of (map f xs) ≡ some (f x)
  unfolding last_of
  last_of-map [] x e = absurd (cc e)
  last_of-map (y ∷ []) x e = ap some (ap f (some-injective y x e))
  last_of-map (y ∷ z ∷ xs) x e = last_of-map (z ∷ xs) x e

  pub last_of-map_none : (xs : List A) → last_of xs ≡ none → last_of (map f xs) ≡ none
  unfolding last_of
  last_of-map_none [] e = refl
  last_of-map_none (y ∷ []) e = absurd (cc e)
  last_of-map_none (y ∷ z ∷ xs) e = last_of-map_none (z ∷ xs) e

  pub but_last-map : (xs : List A) → but_last (map f xs) ≡ map f (but_last xs)
  unfolding but_last
  but_last-map [] = refl
  but_last-map (y ∷ []) = refl
  but_last-map (y ∷ z ∷ xs) = ap (◌∷◌ (f y)) (but_last-map (z ∷ xs))

module _ {A : Type 0} (P : A → Type 0) where
  pub All-last : (xs : List A) (x : A) → last_of xs ≡ some x → All P xs → P x
  unfolding last_of
  All-last [] x e all = absurd (cc e)
  All-last (y ∷ []) x e all = subst P (some-injective y x e) all.0
  All-last (y ∷ z ∷ xs) x e all = All-last (z ∷ xs) x e all.1

  pub All-but_last : (xs : List A) → All P xs → All P (but_last xs)
  unfolding but_last
  All-but_last [] all = tt
  All-but_last (y ∷ []) all = tt
  All-but_last (y ∷ z ∷ xs) all = (all.0, All-but_last (z ∷ xs) all.1)

pub contains-but_last_of :
    (x : String) (xs : List String) → contains x (but_last xs) ≡ true → contains x xs ≡ true
unfolding contains but_last
contains-but_last_of x [] c = c
contains-but_last_of x (y ∷ []) c = absurd (cc c)
contains-but_last_of x (y ∷ z ∷ xs) c = ground (arith, c, contains-but_last_of x (z ∷ xs))

pub but_last-Distinct : (xs : List String) → Distinct xs → Distinct (but_last xs)
unfolding but_last
but_last-Distinct [] d = tt
but_last-Distinct (y ∷ []) d = tt
but_last-Distinct (y ∷ z ∷ xs) d =
    (ground (arith, d.0, contains-but_last_of y (z ∷ xs)), but_last-Distinct (z ∷ xs) d.1)

pub contains-last : (x : String) (xs : List String) → last_of xs ≡ some x → contains x xs ≡ true
unfolding contains last_of
contains-last x [] e = absurd (cc e)
contains-last x (y ∷ []) e = ground (arith, e)
contains-last x (y ∷ z ∷ xs) e = ground (arith, contains-last x (z ∷ xs) e)

-- In a list without repetition the last is not among the others.
pub last_apart :
    (x : String) (xs : List String)
    → Distinct xs
    → last_of xs ≡ some x
    → contains x (but_last xs) ≡ false
unfolding contains but_last last_of
last_apart x [] d e = refl
last_apart x (y ∷ []) d e = refl
last_apart x (y ∷ z ∷ xs) d e =
    ground (arith, d.0, contains-last x (z ∷ xs) e, last_apart x (z ∷ xs) d.1 e)

pub All-map :
    {A : Type 0} (P Q : A → Type 0) → ((x : A) → P x → Q x) → (xs : List A) → All P xs → All Q xs
All-map P Q f [] all = tt
All-map P Q f (x ∷ xs) all = (f x all.0, All-map P Q f xs all.1)
