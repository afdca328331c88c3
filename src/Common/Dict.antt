-- ===== src/Common/Dict.antt =====
-- Python dicts with text keys, in insertion order.
use Prim.Native.String.{String}
use mathlib.Core.List.{List, [], ◌∷◌}
use mathlib.Core.Option.{Option, none, some}
use package.aiops_rca_orchestrator.Common.Tests.{◌=ₜ◌, if◌then◌else◌}

abbrev pub Dict {ℓ} : Type ℓ → Type ℓ
Dict V = List (String × V)

module _ {ℓ} {V : Type ℓ} where
  abbrev pub keys : Dict V → List String
  keys [] = []
  keys ((k, v) ∷ d) = k ∷ keys d

  abbrev pub values : Dict V → List V
  values [] = []
  values ((k, v) ∷ d) = v ∷ values d

  -- `d.get(k)`
  abbrev pub lookup : String → Dict V → Option V
  lookup k [] = none
  lookup k ((j, v) ∷ d) = if k =ₜ j then some v else lookup k d

  -- `d[k] = v`: a key that is there keeps its place.
  abbrev pub insert : String → V → Dict V → Dict V
  insert k v [] = (k, v) ∷ []
  insert k v ((j, w) ∷ d) = if k =ₜ j then (j, v) ∷ d else (j, w) ∷ insert k v d

  -- `d.setdefault(k, v)`
  abbrev pub set_default : String → V → Dict V → Dict V
  set_default k v [] = (k, v) ∷ []
  set_default k v ((j, w) ∷ d) = if k =ₜ j then (j, w) ∷ d else (j, w) ∷ set_default k v d

  -- `{key(x): x for x in xs}`, after the entries of `d`.
  abbrev pub index_from : (V → String) → Dict V → List V → Dict V
  index_from key d [] = d
  index_from key d (x ∷ xs) = index_from key (insert (key x) x d) xs
