-- ===== src/Config/Loaded.antt =====
-- What the loaded settings of src/utils/config.py have of the environment.
use distributed_sync_system.Base.{
  ℕ, ◌≡◌, refl, sym, ap, subst, ◌∙◌, Option, none, some, List, ◌∷◌, String, All,
}
use distributed_sync_system.Config.Words.{parse_peers}
use distributed_sync_system.Config.Numbers.{parse_int, str, parse_int-str}
use distributed_sync_system.Config.Settings.{
  Environment, or_default, Config, getenv, ◌>>=◌, load, node_url, all_nodes,
}
use distributed_sync_system.Config.Peers.{IsPeer, join_commas, parse_peers-join_commas}

Holds {ℓ κ} : {A : Type ℓ} → (A → Type κ) → Option A → Type κ
Holds P none = Unit
Holds P (some a) = P a

Holds->>= {ℓ κ μ} :
    {A : Type ℓ} {B : Type κ} (P : B → Type μ) (m : Option A) (f : A → Option B)
    → ((a : A) → m ≡ some a → Holds P (f a))
    → Holds P (m >>= f)
unfolding Holds
Holds->>= P none f h = tt
Holds->>= P (some a) f h = h a refl

Holds-some {ℓ κ} :
    {A : Type ℓ} (P : A → Type κ) {m : Option A} {a : A} → m ≡ some a → Holds P m → P a
unfolding Holds
Holds-some P e h = subst (Holds P) e h

some_inj {ℓ} : {A : Type ℓ} {a b : A} → some a ≡ some b → b ≡ a
some_inj e = cc e

-- The two settings that decide where the nodes are.
abbrev Placed {ℓ} : {Real : Type ℓ} → Environment → Config Real → Type 0
Placed env c =
    (parse_int (getenv env "NODE_PORT" "8001") ≡ some c.node_port)
    × (c.peer_nodes ≡ parse_peers (getenv env "PEER_NODES" ""))

module _ {ℓ} {Real : Type ℓ} (float : String → Option Real) where
  load-Placed : (env : Environment) → Holds (Placed env) (load float env)
  unfolding load Holds
  load-Placed env = search (Holds->>=) depth 18

  -- Settings that load from an environment with the port and the peers of a cluster written into it, as
  -- decimal digits and joined by commas, have this port, and their nodes are the node itself and then these
  -- peers in their order.
  pub load-all_nodes :
      (env : Environment) (c : Config Real) (port : ℕ) (p : String) (ps : List String)
      → All IsPeer (p ∷ ps)
      → env "NODE_PORT" ≡ some (str port)
      → env "PEER_NODES" ≡ some (join_commas (p ∷ ps))
      → load float env ≡ some c
      → (c.node_port ≡ port) × (all_nodes c ≡ node_url c ∷ p ∷ ps)
  unfolding getenv all_nodes
  load-all_nodes env c port p ps all at_port at_peers e =
      let placed = Holds-some (Placed env) e (load-Placed env) in
      (
        some_inj (
            sym (parse_int-str port)
            ∙ ap (λ o. parse_int (or_default "8001" o)) (sym at_port)
            ∙ placed.0),
        ap (λ ns. node_url c ∷ ns)
            (placed.1
              ∙ ap (λ o. parse_peers (or_default "" o)) at_peers
              ∙ parse_peers-join_commas p ps all),
      )
