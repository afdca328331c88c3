-- ===== src/Normalizer/Capacity.antt =====
-- Merging evidence keeps to the capacity and loses nothing that it has.
use aiops_rca_orchestrator.Common.{
  ℕ, suc, ◌+◌, ◌≤◌, ◌≡◌, refl, ap, subst, true, String, List, [], ◌∷◌, ◌++◌, if◌then◌else◌, arith,
  length, max, is_some,
}
use aiops_rca_orchestrator.Common.Dict.{Dict, lookup, insert, values, index_from}
use aiops_rca_orchestrator.Common.Outcome.{ok, after, returned, ok-injective}
use aiops_rca_orchestrator.Schema.Investigation.{UnknownItem}
use aiops_rca_orchestrator.Schema.Evidence.{Evidence}
use aiops_rca_orchestrator.Normalizer.Merge.{
  EvidenceModel, Merging, merge_one, merge_all, merge_evidence_within, store, supersede, start,
  capacity_notices,
}

length-insert {ℓ} :
    {V : Type ℓ} (k : String) (v : V) (d : Dict V)
    → length (insert k v d) ≡ (if is_some (lookup k d) then length d else suc (length d))
length-insert k v [] = refl
length-insert k v ((j, w) ∷ d) = ground (arith, length-insert k v d)

length-values {ℓ} : {V : Type ℓ} (d : Dict V) → length (values d) ≡ length d
length-values [] = refl
length-values ((k, v) ∷ d) = ap suc (length-values d)

length-index {ℓ} :
    {V : Type ℓ} (key : V → String) (d : Dict V) (xs : List V)
    → length (index_from key d xs) ≤ length d + length xs
length-index key d [] = omega arith
length-index key d (x ∷ xs) =
    ground (arith, length-insert (key x) x d, length-index key (insert (key x) x d) xs)

insert-keeps {ℓ} :
    {V : Type ℓ} (k j : String) (v : V) (d : Dict V)
    → is_some (lookup j d) ≡ true
    → is_some (lookup j (insert k v d)) ≡ true
insert-keeps k j v [] h = absurd cc
insert-keeps k j v ((i, w) ∷ d) h = ground (arith, insert-keeps k j v d)

module _ (model : EvidenceModel) (capacity : ℕ) where
  merge_one-within :
      (item : Evidence) (m t : Merging)
      → merge_one model capacity item m ≡ ok t
      → length t.merged ≤ max capacity (length m.merged)
  unfolding merge_one store supersede
  merge_one-within item m t h = ground (arith, length-insert item.evidence_id item m.merged)

  merge_all-within :
      (items : List Evidence) (m t : Merging)
      → merge_all model capacity items m ≡ ok t
      → length t.merged ≤ max capacity (length m.merged)
  unfolding merge_all
  merge_all-within [] m t h =
      subst (λ t. length t.merged ≤ max capacity (length m.merged)) (ok-injective m t h)
        (omega arith)
  merge_all-within (item ∷ items) m t h =
      after (λ t. length t.merged ≤ max capacity (length m.merged))
        (merge_one model capacity item m) _
        (λ n one rest.
          let first = merge_one-within item m n one in
          let others = merge_all-within items n t rest in omega arith)
        h

  merge_one-keeps :
      (id : String) (item : Evidence) (m t : Merging)
      → is_some (lookup id m.merged) ≡ true
      → merge_one model capacity item m ≡ ok t
      → is_some (lookup id t.merged) ≡ true
  unfolding merge_one store supersede
  merge_one-keeps id item m t there h =
      ground (arith, insert-keeps item.evidence_id id item m.merged)

  -- Evidence that is there stays, by its id, whatever is merged in and however full it is.
  pub merge_all-keeps :
      (id : String) (items : List Evidence) (m t : Merging)
      → is_some (lookup id m.merged) ≡ true
      → merge_all model capacity items m ≡ ok t
      → is_some (lookup id t.merged) ≡ true
  unfolding merge_all
  merge_all-keeps id [] m t there h =
      subst (λ t. is_some (lookup id t.merged) ≡ true) (ok-injective m t h) there
  merge_all-keeps id (item ∷ items) m t there h =
      after (λ t. is_some (lookup id t.merged) ≡ true) (merge_one model capacity item m) _
        (λ n one rest. merge_all-keeps id items n t (merge_one-keeps id item m n there one) rest) h

  -- Merging into evidence within the capacity, where it returns, gives evidence within the
  -- capacity.
  pub merge_evidence-within :
      (existing additions : List Evidence) (merged : List Evidence) (unknowns : List UnknownItem)
      → length existing ≤ capacity
      → merge_evidence_within model capacity existing additions ≡ ok (merged, unknowns)
      → length merged ≤ capacity
  unfolding merge_evidence_within
  merge_evidence-within existing additions merged unknowns fits h =
      after (λ r. length r.0 ≤ capacity) (merge_all model capacity additions (start existing)) _
        (λ m all_merged rest.
          let bound = merge_all-within additions (start existing) m all_merged in
          let indexed = length-index (λ e. e.evidence_id) [] existing in
          returned (λ r. length r.0 ≤ capacity) (capacity_notices capacity m.dropped)
            (λ notices. (values m.merged, m.unknowns ++ notices))
            (λ notices. omega (arith, length-values m.merged)) rest)
        h
