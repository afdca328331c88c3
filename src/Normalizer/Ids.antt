-- ===== src/Normalizer/Ids.antt =====
-- Merged evidence has unique ids, whatever ids came in: the rebuilt state does not refuse it.
use aiops_rca_orchestrator.Common.{
  ◌≡◌, refl, subst, true, false, String, List, [], ◌∷◌, ◌++◌, map, ◌=ₜ◌, text_eq_iff, arith, inl,
  inr, Option-cases, none, some, ℕ, suc, leb, length,
}
use aiops_rca_orchestrator.Common.Laws.{text_eq_sym}
use aiops_rca_orchestrator.Common.Dict.{Dict, keys, lookup, insert, values, index_from}
use aiops_rca_orchestrator.Common.Text.{contains, ◌<>◌}
use aiops_rca_orchestrator.Common.Outcome.{ok, after, either, returned, ok-injective}
use aiops_rca_orchestrator.Schema.Investigation.{UnknownItem, unknown_item}
use aiops_rca_orchestrator.Schema.Evidence.{Evidence}
use aiops_rca_orchestrator.State.Validity.{unique}
use aiops_rca_orchestrator.Normalizer.Merge.{
  EvidenceModel, Merging, merge_one, merge_all, merge_evidence_within, store, supersede, start,
  capacity_notices,
}

contains-insert {ℓ} :
    {V : Type ℓ} (k j : String) (v : V) (d : Dict V)
    → (k =ₜ j) ≡ false
    → contains (keys (insert k v d)) j ≡ contains (keys d) j
contains-insert k j v [] h = ground (arith, text_eq_sym k j)
contains-insert k j v ((i, w) ∷ d) h = ground (arith, text_eq_sym k j, contains-insert k j v d h)

unique-insert {ℓ} :
    {V : Type ℓ} (k : String) (v : V) (d : Dict V)
    → unique (keys d) ≡ true
    → unique (keys (insert k v d)) ≡ true
unfolding unique
unique-insert k v [] h = refl
unique-insert k v ((j, w) ∷ d) h = ground (arith, unique-insert k v d, contains-insert k j v d)

unfoldable ids : List Evidence → List String
ids items = map (λ e. e.evidence_id) items

keyed-insert :
    (e : Evidence) (d : Dict Evidence)
    → keys d ≡ ids (values d)
    → keys (insert e.evidence_id e d) ≡ ids (values (insert e.evidence_id e d))
unfolding ids
keyed-insert e [] h = refl
keyed-insert e ((j, w) ∷ d) h =
    let rest = keyed-insert e d in let named = text_eq_iff e.evidence_id j in ground arith

-- The keys are the ids of the evidence, and no two are the same.
abbrev Indexed : Dict Evidence → Type 0
Indexed d = (keys d ≡ ids (values d)) × (unique (keys d) ≡ true)

Indexed-insert : (e : Evidence) (d : Dict Evidence) → Indexed d → Indexed (insert e.evidence_id e d)
Indexed-insert e d (keyed, distinct) =
    (keyed-insert e d keyed, unique-insert e.evidence_id e d distinct)

index_from-Indexed :
    (d : Dict Evidence) (items : List Evidence)
    → Indexed d
    → Indexed (index_from (λ e. e.evidence_id) d items)
index_from-Indexed d [] h = h
index_from-Indexed d (e ∷ items) h =
    index_from-Indexed (insert e.evidence_id e d) items (Indexed-insert e d h)

module _ (model : EvidenceModel) (capacity : ℕ) where
  supersede-Indexed :
      (item : Evidence) (m t : Merging)
      → Indexed m.merged
      → supersede item m ≡ ok t
      → Indexed t.merged
  unfolding supersede store
  supersede-Indexed item m t h k =
      returned (λ t. Indexed t.merged)
        (unknown_item "evidence_superseded"
          (item.evidence_id
            <> " was observed twice with different content; the later reading is the one kept")
          none (some item.tool_call_id))
        _ (λ u. Indexed-insert item m.merged h) k

  merge_one-Indexed :
      (item : Evidence) (m t : Merging)
      → Indexed m.merged
      → merge_one model capacity item m ≡ ok t
      → Indexed t.merged
  unfolding merge_one store
  merge_one-Indexed item m t h k = elim (Option-cases (lookup item.evidence_id m.merged)) [
    | inl new ↦
        either (λ t. Indexed t.merged) (leb capacity (length m.merged))
          (ok (record m { dropped = suc m.dropped })) (ok (store item m))
          (λ full. subst (λ t. Indexed t.merged) (ok-injective _ t full) h)
          (λ room.
            subst (λ t. Indexed t.merged) (ok-injective _ t room) (Indexed-insert item m.merged h))
          (rw (merge_one, new) at k)
    | inr (prior, seen) ↦
        either (λ t. Indexed t.merged) (model.evidence_eq prior item) (ok (store item m))
          (supersede item m)
          (λ same.
            subst (λ t. Indexed t.merged) (ok-injective _ t same) (Indexed-insert item m.merged h))
          (supersede-Indexed item m t h) (rw (merge_one, seen) at k)
  ]

  merge_all-Indexed :
      (items : List Evidence) (m t : Merging)
      → Indexed m.merged
      → merge_all model capacity items m ≡ ok t
      → Indexed t.merged
  unfolding merge_all
  merge_all-Indexed [] m t h k = subst (λ t. Indexed t.merged) (ok-injective m t k) h
  merge_all-Indexed (item ∷ items) m t h k =
      after (λ t. Indexed t.merged) (merge_one model capacity item m) _
        (λ n one rest. merge_all-Indexed items n t (merge_one-Indexed item m n h one) rest) k

  -- Merging, where it returns, gives evidence with unique ids, whatever ids came in.
  pub merge_evidence-unique :
      (existing additions merged : List Evidence) (unknowns : List UnknownItem)
      → merge_evidence_within model capacity existing additions ≡ ok (merged, unknowns)
      → unique (map (λ e. e.evidence_id) merged) ≡ true
  unfolding merge_evidence_within ids unique
  merge_evidence-unique existing additions merged unknowns h =
      after (λ r. unique (ids r.0) ≡ true) (merge_all model capacity additions (start existing)) _
        (λ m all_merged rest.
          let indexed =
            merge_all-Indexed additions (start existing) m
              (index_from-Indexed [] existing (refl, refl)) all_merged in
          returned (λ r. unique (ids r.0) ≡ true) (capacity_notices capacity m.dropped)
            (λ notices. (values m.merged, m.unknowns ++ notices))
            (λ notices. subst (λ l. unique l ≡ true) indexed.0 indexed.1) rest)
        h
