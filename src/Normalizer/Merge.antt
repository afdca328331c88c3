-- ===== src/Normalizer/Merge.antt =====
-- `merge_evidence` of tools/normalizer.py.
use aiops_rca_orchestrator.Common.{
  ℕ, suc, Bool, none, some, List, [], ◌∷◌, ◌++◌, leb, ◌==◌, if◌then◌else◌, length,
}
use aiops_rca_orchestrator.Common.Text.{◌<>◌, decimal}
use aiops_rca_orchestrator.Common.Dict.{Dict, lookup, insert, values, index_from}
use aiops_rca_orchestrator.Common.Outcome.{Outcome, ok, ◌>>=◌}
use aiops_rca_orchestrator.Schema.Investigation.{UnknownItem, unknown_item}
use aiops_rca_orchestrator.Schema.Evidence.{Evidence}

-- What pydantic does with the evidence models: `==`, and `Evidence.model_validate`, which raises
-- or returns the model with its values parsed.
pub record EvidenceModel : Type 0 where
  pub evidence_eq : Evidence → Evidence → Bool
  pub model_validate : Evidence → Outcome Evidence

abbrev pub evidence_capacity : ℕ
evidence_capacity = 200

-- The variables of the loop.
pub record Merging : Type 0 where
  pub merged : Dict Evidence
  pub unknowns : List UnknownItem
  pub dropped : ℕ

unfoldable pub store : Evidence → Merging → Merging
store item m = record m { merged = insert item.evidence_id item m.merged }

unfoldable pub supersede : Evidence → Merging → Outcome Merging
unfolding store
supersede item m = do
  unknown ←
      unknown_item "evidence_superseded"
        (item.evidence_id
          <> " was observed twice with different content; the later reading is the one kept")
        none (some item.tool_call_id)
  ok (store item (record m { unknowns = m.unknowns ++ unknown ∷ [] }))

-- One round of the loop over the additions.
unfoldable pub merge_one : EvidenceModel → ℕ → Evidence → Merging → Outcome Merging
unfolding store supersede
merge_one model capacity item m = elim (lookup item.evidence_id m.merged) [
  | none ↦
      if leb capacity (length m.merged)
      then ok (record m { dropped = suc m.dropped })
      else ok (store item m)
  | some prior ↦ if model.evidence_eq prior item then ok (store item m) else supersede item m
]

unfoldable pub merge_all : EvidenceModel → ℕ → List Evidence → Merging → Outcome Merging
unfolding merge_one
merge_all model capacity [] m = ok m
merge_all model capacity (item ∷ items) m =
    merge_one model capacity item m >>= λ next. merge_all model capacity items next

-- The notice on what was dropped.
unfoldable pub capacity_notices : ℕ → ℕ → Outcome (List UnknownItem)
capacity_notices capacity dropped =
    if dropped == 0
    then ok []
    else (unknown_item "evidence_capacity_reached"
          ("collection stopped at "
            <> (decimal capacity
                <> (" pieces of evidence; "
                    <> (decimal dropped <> " further observation(s) were not recorded"))))
          none none
        >>= λ unknown. ok (unknown ∷ []))

abbrev pub start : List Evidence → Merging
start existing = record {
  merged = index_from (λ e. e.evidence_id) [] existing;
  unknowns = [];
  dropped = 0;
}

-- `merge_evidence(existing, additions, capacity=capacity)`
unfoldable pub merge_evidence_within :
    EvidenceModel → ℕ → List Evidence → List Evidence → Outcome (List Evidence × List UnknownItem)
unfolding merge_all capacity_notices
merge_evidence_within model capacity existing additions = do
  m ← merge_all model capacity additions (start existing)
  notices ← capacity_notices capacity m.dropped
  ok (values m.merged, m.unknowns ++ notices)

-- `merge_evidence(existing, additions)`
unfoldable pub merge_evidence :
    EvidenceModel → List Evidence → List Evidence → Outcome (List Evidence × List UnknownItem)
unfolding merge_evidence_within
merge_evidence model = merge_evidence_within model evidence_capacity
