-- ===== src/Queue/Tasks/Runs.antt =====
-- Runs of the calls of src/nodes/queue_node.py, command by command in any order, with cancellations.
use mathlib.Core.Option.{some-injective}
use distributed_sync_system.Base.{
  subst, ap, ℕ, ◌≡◌, ◌≢◌, ◌⊎◌, inl, inr, refl, sym, ◌∙◌, false, Bool-cases, Option, none, some,
  List, [], ◌∷◌, String, All, arith, Option-cases, ◌==◌,
}
use distributed_sync_system.Queue.Keys.{has_colon}
use distributed_sync_system.Queue.Store.{Redis}
use distributed_sync_system.Queue.Message.{Codec}
use distributed_sync_system.Queue.Node.{QueueNode}
use distributed_sync_system.Queue.Kept.{IsPending, IsFlying}
use distributed_sync_system.Queue.Tasks.{
  Task, Pool, TaskEvent, begun, advanced, cut, put_task, advance, pool_step, run_pool,
}
use distributed_sync_system.Queue.Tasks.Placed.{Readable, Carries, Holds, GivesUp, Lands, Moves}
use distributed_sync_system.Queue.Tasks.Moves.{advance-Moves}

module _ {J : Type 0} (codec : Codec J) (db : Redis) (max_retries : ℕ) (q i : String) where
  -- Some task that is under way has taken it off and has yet to put it back.
  abbrev pub IsHeld : Pool db.Store J → Type 0
  IsHeld p = (k : ℕ) × (t : Task J) × (p.tasks k ≡ some t) × Holds codec db max_retries q i t

  abbrev pub Placed : Pool db.Store J → Type 0
  Placed p =
      IsPending codec db max_retries q i p.node.redis
      ⊎ (IsFlying codec db max_retries q i p.node.redis ⊎ IsHeld p)

  -- The node reads the message, and the tasks that are under way do not acknowledge it.
  pub record Sane (p : Pool db.Store J) : Type 0 where
    pub reads : Readable codec db max_retries q i p.node.redis
    pub carried : (k : ℕ) (t : Task J) → p.tasks k ≡ some t → Carries codec db max_retries q i t

  -- An event that begins a task begins one that does not acknowledge it.
  unfoldable pub Ordinary : TaskEvent J → Type 0
  Ordinary (begun k t) = Carries codec db max_retries q i t
  Ordinary (advanced k now later) = Unit {0}
  Ordinary (cut k) = Unit {0}

  -- The event cancels a task that holds it, or is the command by which a task gives it up.
  unfoldable pub Lapses : TaskEvent J → Pool db.Store J → Type 0
  Lapses (begun k t) p = ⊥
  Lapses (advanced k now later) p =
      (t : Task J) × (p.tasks k ≡ some t) × GivesUp codec db max_retries q i t
  Lapses (cut k) p = (t : Task J) × (p.tasks k ≡ some t) × Holds codec db max_retries q i t

  unfoldable pub Lapsed : List (TaskEvent J) → Pool db.Store J → Type 0
  Lapsed [] p = ⊥
  Lapsed (e ∷ es) p = Lapses e p ⊎ Lapsed es (pool_step codec db max_retries e p)

  put_same :
      (k j : ℕ) (t : Option (Task J)) (tasks : ℕ → Option (Task J))
      → j ≡ k
      → put_task k t tasks j ≡ t
  unfolding put_task
  put_same k j t tasks e = ground (arith, e)

  put_other :
      (k j : ℕ) (t : Option (Task J)) (tasks : ℕ → Option (Task J))
      → j ≢ k
      → put_task k t tasks j ≡ tasks j
  unfolding put_task
  put_other k j t tasks d = ground (arith, d)

  same_place : (k j : ℕ) → (j ≡ k) ⊎ (j ≢ k)
  same_place k j = elim (Bool-cases (j == k)) [
    | inl e ↦ inl (ground (arith, e))
    | inr e ↦ inr (λ (x : j ≡ k). ground (arith, e, x))
  ]

  -- What holds of every task, and of the one that is put to a place, holds of every task then.
  put_all :
      (P : Task J → Type 0) (k : ℕ) (next : Option (Task J)) (tasks : ℕ → Option (Task J))
      → ((j : ℕ) (t : Task J) → tasks j ≡ some t → P t)
      → ((t : Task J) → next ≡ some t → P t)
      → (j : ℕ) (t : Task J) → put_task k next tasks j ≡ some t
      → P t
  put_all P k next tasks all new j t e = elim (same_place k j) [
    | inl s ↦ new t (sym (put_same k j next tasks s) ∙ e)
    | inr d ↦ all j t (sym (put_other k j next tasks d) ∙ e)
  ]

  -- A task that holds it still does when another place changes.
  held_other :
      (k j : ℕ) (t : Task J) (next : Option (Task J)) (tasks : ℕ → Option (Task J))
      (n : QueueNode db.Store)
      → j ≢ k
      → tasks j ≡ some t
      → Holds codec db max_retries q i t
      → Placed (record { node = n; tasks = put_task k next tasks })
  held_other k j t next tasks n d e h = inr (inr (j, t, put_other k j next tasks d ∙ e, h))

  landed :
      (k : ℕ) (tasks : ℕ → Option (Task J)) (n : QueueNode db.Store) (next : Option (Task J))
      → Lands codec db max_retries q i (n, next)
      → Placed (record { node = n; tasks = put_task k next tasks })
  landed k tasks n next l = elim l [
    | inl a ↦ inl a
    | inr b ↦ elim b [
      | inl a ↦ inr (inl a)
      | inr (t, e, h) ↦ inr (inr (k, t, put_same k k next tasks refl ∙ e, h))
    ]
  ]

  -- Where the message is after a command of the task at a place.
  advanced-Placed :
      (k : ℕ) (t : Task J) (p : Pool db.Store J) (n : QueueNode db.Store) (next : Option (Task J))
      → p.tasks k ≡ some t
      → Moves codec db max_retries q i t p.node (n, next)
      → Placed p
      → Placed (record { node = n; tasks = put_task k next p.tasks })
        ⊎ GivesUp codec db max_retries q i t
  advanced-Placed k t p n next e m placed = elim placed [
    | inl a ↦ inl (landed k p.tasks n next (m.from_list a))
    | inr b ↦ elim b [
      | inl a ↦ elim (m.from_set a) [ inl l ↦ inl (landed k p.tasks n next l) | inr g ↦ inr g ]
      | inr (j, u, f, h) ↦ elim (same_place k j) [
        | inl s ↦
            let same : u ≡ t = some-injective u t (sym f ∙ ap p.tasks s ∙ e) in
            inl (
              landed k p.tasks n next (m.from_task (subst (Holds codec db max_retries q i) same h)))
        | inr d ↦ inl (held_other k j u next p.tasks n d f h)
      ]
    ]
  ]

  begun-Placed :
      (k : ℕ) (t : Task J) (p : Pool db.Store J)
      → p.tasks k ≡ none
      → Placed p
      → Placed (record p { tasks = put_task k (some t) p.tasks })
  begun-Placed k t p free placed = elim placed [
    | inl a ↦ inl a
    | inr b ↦ elim b [
      | inl a ↦ inr (inl a)
      | inr (j, u, f, h) ↦ elim (same_place k j) [
        | inl s ↦ absurd (let x : none ≡ some u = sym free ∙ ap p.tasks (sym s) ∙ f in cc x)
        | inr d ↦ held_other k j u (some t) p.tasks p.node d f h
      ]
    ]
  ]

  cut-Placed :
      (k : ℕ) (p : Pool db.Store J)
      → Placed p
      → Placed (record p { tasks = put_task k none p.tasks })
        ⊎ ((t : Task J) × (p.tasks k ≡ some t) × Holds codec db max_retries q i t)
  cut-Placed k p placed = elim placed [
    | inl a ↦ inl (inl a)
    | inr b ↦ elim b [
      | inl a ↦ inl (inr (inl a))
      | inr (j, u, f, h) ↦ elim (same_place k j) [
        | inl s ↦ inr (u, ap p.tasks (sym s) ∙ f, h)
        | inr d ↦ inl (held_other k j u none p.tasks p.node d f h)
      ]
    ]
  ]

  module _ (plain : has_colon q ≡ false) (named : i ≢ "") where
    abbrev step_of : TaskEvent J → Pool db.Store J → Pool db.Store J
    step_of = pool_step codec db max_retries

    pool_step-Placed :
        (e : TaskEvent J) (p : Pool db.Store J)
        → Ordinary e
        → Sane p
        → Placed p
        → Sane (step_of e p) × (Placed (step_of e p) ⊎ Lapses e p)
    unfolding pool_step Lapses Ordinary
    pool_step-Placed (begun k t) p ok sane placed = elim (Option-cases (p.tasks k)) [
      | inl e ↦
          rw (e, pool_step)
            (
              record {
                reads = sane.reads;
                carried =
                    put_all (Carries codec db max_retries q i) k (some t) p.tasks sane.carried
                      (λ u same.
                        subst (Carries codec db max_retries q i) (some-injective t u same) ok);
              },
              inl (begun-Placed k t p e placed),
            )
      | inr (u, e) ↦ rw (e, pool_step) (sane, inl placed)
    ]
    pool_step-Placed (advanced k now later) p ok sane placed = elim (Option-cases (p.tasks k)) [
      | inl e ↦ rw (e, pool_step) (sane, inl placed)
      | inr (t, e) ↦
          let (n, next) = advance codec db max_retries now later t p.node in
          let m =
            advance-Moves codec db max_retries q i plain named now later t p.node
              (sane.carried k t e) sane.reads in
          rw (e, pool_step)
            (
              record {
                reads = m.reads;
                carried =
                    put_all (Carries codec db max_retries q i) k next p.tasks sane.carried
                      m.carried;
              },
              elim (advanced-Placed k t p n next e m placed) [
                | inl a ↦ inl a
                | inr g ↦ inr (t, refl, g)
              ],
            )
    ]
    pool_step-Placed (cut k) p ok sane placed = (
      record {
        reads = sane.reads;
        carried =
            put_all (Carries codec db max_retries q i) k none p.tasks sane.carried
              (λ u same. absurd (cc same));
      },
      cut-Placed k p placed,
    )

    -- A message of the node's store that is on its list, in flight or held by a task stays so in any order
    -- of the commands of any calls, of this node and of others, which do not acknowledge it, unless at
    -- some point a task that holds it is cancelled, or a check gives it up, which has it with as many
    -- retries as there may be. A task holds it between taking it off the list and putting it into
    -- the set, and between taking it out of the set and putting it back on the list. The queues' names
    -- have no colon, its id is not empty, and messages that are saved under its id can be stored, with
    -- counts within the limit.
    pub run_pool-Placed :
        (es : List (TaskEvent J)) (p : Pool db.Store J)
        → All Ordinary es
        → Sane p
        → Placed p
        → Placed (run_pool codec db max_retries es p) ⊎ Lapsed es p
    unfolding run_pool Lapsed
    run_pool-Placed [] p all sane placed = inl placed
    run_pool-Placed (e ∷ es) p all sane placed =
        let (sane', next) = pool_step-Placed e p all.0 sane placed in
        elim next [
          | inl placed' ↦ elim (run_pool-Placed es (step_of e p) all.1 sane' placed') [
            | inl a ↦ inl a
            | inr l ↦ inr (inr l)
          ]
          | inr l ↦ inr (inl l)
        ]
