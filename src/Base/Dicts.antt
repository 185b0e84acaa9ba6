-- ===== src/Base/Dicts.antt =====
-- A dictionary as an association list in insertion order; an update keeps a key's place.
use Prim.Native.String.{String}
use mathlib.Core.Path.{◌≡◌, refl}
use mathlib.Core.Logic.{ite}
use mathlib.Core.Option.{Option, none, some}
use mathlib.Core.List.{List, [], ◌∷◌}
use native.Mathlib.Omega.{arith}
use distributed_sync_system.Base.Text.{str_dec}

abbrev pub Dict {ℓ} : Type ℓ → Type ℓ
Dict V = List (String × V)

module _ {ℓ} {V : Type ℓ} where
  -- `d.get(k)`
  unfoldable pub lookup : String → Dict V → Option V
  lookup k [] = none
  lookup k ((j, v) ∷ m) = ite (str_dec k j) (some v) (lookup k m)

  -- `d.get(k, default)`
  unfoldable pub lookup_or : String → V → Dict V → V
  lookup_or k v m = elim (lookup k m) [ none ↦ v | some w ↦ w ]

  -- `d[k] = v`
  unfoldable pub insert : String → V → Dict V → Dict V
  insert k v [] = (k, v) ∷ []
  insert k v ((j, w) ∷ m) = ite (str_dec k j) ((j, v) ∷ m) ((j, w) ∷ insert k v m)

  -- `d.pop(k, None)`, `del d[k]`
  unfoldable pub erase : String → Dict V → Dict V
  erase k [] = []
  erase k ((j, w) ∷ m) = ite (str_dec k j) (erase k m) ((j, w) ∷ erase k m)

  pub lookup-insert :
      (k j : String) (v : V) (m : Dict V)
      → lookup j (insert k v m) ≡ ite (str_dec j k) (some v) (lookup j m)
  unfolding lookup insert
  lookup-insert k j v [] = refl
  lookup-insert k j v ((i, w) ∷ m) = ground (arith, lookup-insert k j v m)

  pub lookup-erase :
      (k j : String) (m : Dict V) → lookup j (erase k m) ≡ ite (str_dec j k) none (lookup j m)
  unfolding lookup erase
  lookup-erase k j [] = ground arith
  lookup-erase k j ((i, w) ∷ m) = ground (arith, lookup-erase k j m)

  pub lookup-insert_self : (k : String) (v : V) (m : Dict V) → lookup k (insert k v m) ≡ some v
  lookup-insert_self k v m = ground (arith, lookup-insert k k v m)

  pub lookup_or-insert :
      (k j : String) (w v : V) (m : Dict V)
      → lookup_or j w (insert k v m) ≡ ite (str_dec j k) v (lookup_or j w m)
  unfolding lookup_or
  lookup_or-insert k j w v m = ground (arith, lookup-insert k j v m)
