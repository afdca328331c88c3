-- ===== src/Nodes/Citations.antt =====
-- `HypothesisUpdaterNode` cites known evidence only: the references of the state that it leaves
-- resolve.
use aiops_rca_orchestrator.Common.{
  ◌≡◌, refl, subst, Bool, true, not, ◌&&◌, none, String, List, [], ◌∷◌, ◌++◌, all, keep, arith, inl,
  inr, Bool-cases, Option-cases, is_empty,
}
use aiops_rca_orchestrator.Common.Dict.{Dict, lookup, insert, values, index_from}
use aiops_rca_orchestrator.Common.Text.{contains, ◌<>◌, text_take}
use aiops_rca_orchestrator.Common.Value.{Runtime}
use aiops_rca_orchestrator.Common.Laws.{all-keep, all-kept}
use aiops_rca_orchestrator.Common.Outcome.{
  ok, after, returned, either, required, value_error, ok-injective,
}
use aiops_rca_orchestrator.Schema.Investigation.{Hypothesis}
use aiops_rca_orchestrator.Schema.Decisions.{
  HypothesisUpdateDecision, HypothesisUpdate, FactDecision,
}
use aiops_rca_orchestrator.State.{InvestigationState}
use aiops_rca_orchestrator.State.Validity.{evidence_ids, facts_resolve, hypotheses_resolve}
use aiops_rca_orchestrator.Nodes.World.{note}
use aiops_rca_orchestrator.Nodes.Hypotheses.{fresh}
use aiops_rca_orchestrator.Nodes.Updater.{
  known_evidence, citations, Updating, updated, apply_update, apply_updates, refused_notes,
  dropped_notes, add_hypothesis, add_hypotheses, Facts, add_fact, add_facts, fact_known,
  hypothesis_updater,
}

module _ {ℓ} {A : Type ℓ} (p : A → Bool) where
  all-insert :
      (k : String) (v : A) (d : Dict A)
      → p v ≡ true
      → all p (values d) ≡ true
      → all p (values (insert k v d)) ≡ true
  all-insert k v [] h g = ground arith
  all-insert k v ((j, w) ∷ d) h g = let rest = all-insert k v d h in ground arith

  all-index :
      (key : A → String) (d : Dict A) (xs : List A)
      → all p (values d) ≡ true
      → all p xs ≡ true
      → all p (values (index_from key d xs)) ≡ true
  all-index key d [] h g = h
  all-index key d (x ∷ xs) h g =
      all-index key (insert (key x) x d) xs (all-insert (key x) x d (ground arith) h) (ground arith)

  all-snoc : (xs : List A) (x : A) → all p xs ≡ true → p x ≡ true → all p (xs ++ x ∷ []) ≡ true
  all-snoc [] x h g = ground arith
  all-snoc (y ∷ ys) x h g = let rest = all-snoc ys x in ground arith

module _ (rt : Runtime) (s : InvestigationState) where
  abbrev resolves : Hypothesis → Bool
  resolves h =
      all (contains (known_evidence s)) h.supporting_evidence_ids
      && all (contains (known_evidence s)) h.counter_evidence_ids

  abbrev Resolved : Updating → Type 0
  Resolved u = all resolves (values u.hypotheses) ≡ true

  citations-known :
      (refs : List String) → all (contains (known_evidence s)) (citations s refs) ≡ true
  unfolding citations
  citations-known refs =
      all-keep (contains (known_evidence s)) _ (keep (contains (known_evidence s)) refs)
        (all-kept (contains (known_evidence s)) refs)

  updated-resolves :
      (update : HypothesisUpdate) (h : Hypothesis) → resolves (updated s update h) ≡ true
  unfolding updated
  updated-resolves update h = ground (
    citations-known update.supporting_evidence_ids,
    citations-known update.counter_evidence_ids,
    arith,
  )

  apply_update-Resolved :
      (update : HypothesisUpdate) (u v : Updating)
      → Resolved u
      → apply_update rt s update u ≡ ok v
      → Resolved v
  unfolding apply_update
  apply_update-Resolved update u v r h =
      elim (Option-cases (lookup update.hypothesis_id u.hypotheses)) [
        | inl unknown ↦
            returned Resolved
              (note "hypothesis_update_unknown_hypothesis"
                ("업데이트가 존재하지 않는 가설 " <> (update.hypothesis_id <> "를 가리켜 무시했다.")) none u.unknowns)
              _ (λ unknowns. r) (rw (apply_update, unknown) at h)
        | inr (current, found) ↦
            after Resolved (refused_notes rt s update u.unknowns) _
              (λ a first. returned Resolved (dropped_notes rt s update a) _ (λ b.
                all-insert resolves current.id (updated s update current) u.hypotheses
                  (updated-resolves update current) r))
              (rw (apply_update, found) at h)
      ]

  apply_updates-Resolved :
      (updates : List HypothesisUpdate) (u v : Updating)
      → Resolved u
      → apply_updates rt s updates u ≡ ok v
      → Resolved v
  unfolding apply_updates
  apply_updates-Resolved [] u v r h = subst Resolved (ok-injective u v h) r
  apply_updates-Resolved (update ∷ updates) u v r h =
      after Resolved (apply_update rt s update u) _
        (λ n one rest.
          apply_updates-Resolved updates n v (apply_update-Resolved update u n r one) rest)
        h

  add_hypothesis-Resolved :
      (new : Hypothesis) (u v : Updating) → Resolved u → add_hypothesis new u ≡ ok v → Resolved v
  unfolding add_hypothesis
  add_hypothesis-Resolved new u v r h = elim (Option-cases (lookup new.id u.hypotheses)) [
    | inl free ↦
        subst Resolved (ok-injective _ v (rw (add_hypothesis, free) at h))
          (all-insert resolves new.id (fresh new) u.hypotheses refl r)
    | inr (current, taken) ↦
        returned Resolved
          (note "hypothesis_id_reused" ("새 가설이 기존 id " <> (new.id <> "를 다시 써서 무시했다.")) none
            u.unknowns)
          _ (λ unknowns. r) (rw (add_hypothesis, taken) at h)
  ]

  add_hypotheses-Resolved :
      (news : List Hypothesis) (u v : Updating)
      → Resolved u
      → add_hypotheses news u ≡ ok v
      → Resolved v
  unfolding add_hypotheses
  add_hypotheses-Resolved [] u v r h = subst Resolved (ok-injective u v h) r
  add_hypotheses-Resolved (new ∷ news) u v r h =
      after Resolved (add_hypothesis new u) _
        (λ n one rest.
          add_hypotheses-Resolved news n v (add_hypothesis-Resolved new u n r one) rest)
        h

  abbrev Founded : Facts → Type 0
  Founded facts = all (λ f. all (contains (known_evidence s)) f.evidence_ids) facts.0 ≡ true

  add_fact-Founded :
      (f : FactDecision) (facts more : Facts)
      → Founded facts
      → add_fact s f facts ≡ ok more
      → Founded more
  unfolding add_fact
  add_fact-Founded f (facts, unknowns) more r h =
      elim (Bool-cases (all (contains (known_evidence s)) f.evidence_ids)) [
        | inl founded ↦
            either Founded (fact_known facts f) (ok (facts, unknowns))
              (ok
                (facts ++ (record { fact = f.fact; evidence_ids = f.evidence_ids }) ∷ [], unknowns))
              (λ same. subst Founded (ok-injective _ more same) r)
              (λ added. subst Founded (ok-injective _ more added) (
                all-snoc (λ f. all (contains (known_evidence s)) f.evidence_ids) facts
                  (record { fact = f.fact; evidence_ids = f.evidence_ids }) r founded))
              (rw (add_fact, founded) at h)
        | inr unfounded ↦
            returned Founded
              (note "known_fact_evidence_missing"
                ("사실 '" <> (text_take 80 f.fact <> "'이 확인할 수 없는 근거를 가리켜 기록하지 않았다.")) none unknowns)
              _ (λ more. r) (rw (add_fact, unfounded) at h)
      ]

  add_facts-Founded :
      (fs : List FactDecision) (facts more : Facts)
      → Founded facts
      → add_facts s fs facts ≡ ok more
      → Founded more
  unfolding add_facts
  add_facts-Founded [] facts more r h = subst Founded (ok-injective facts more h) r
  add_facts-Founded (f ∷ fs) facts more r h =
      after Founded (add_fact s f facts) _
        (λ n one rest. add_facts-Founded fs n more (add_fact-Founded f facts n r one) rest) h

-- The references of the hypotheses and of the facts are to evidence that the state holds.
abbrev pub References : InvestigationState → Type 0
References s =
    (hypotheses_resolve (evidence_ids s) s.hypotheses ≡ true)
    × (facts_resolve (evidence_ids s) s.known_facts ≡ true)

-- If the references of the state resolve, those of the state that a returning updater leaves do
-- too, whatever ids the model cited.
pub hypothesis_updater-References :
    (rt : Runtime) (decision : HypothesisUpdateDecision) (s t : InvestigationState)
    → References s
    → hypothesis_updater rt decision s ≡ ok t
    → References t
unfolding hypothesis_updater hypotheses_resolve facts_resolve
hypothesis_updater-References rt decision s t sound h =
    after References
      (apply_updates rt s decision.updates
        (record { hypotheses = index_from (λ h. h.id) [] s.hypotheses; unknowns = s.unknowns }))
      _
      (λ u updates_done next.
        let first =
          apply_updates-Resolved rt s decision.updates _ u
            (all-index (resolves rt s) (λ h. h.id) [] s.hypotheses refl sound.0) updates_done in
        after References (add_hypotheses decision.new_hypotheses u) _
          (λ v news_done last.
            after References (add_facts s decision.new_facts (s.known_facts, v.unknowns)) _
              (λ facts facts_done whole. subst References (ok-injective _ t whole) (
                add_hypotheses-Resolved rt s decision.new_hypotheses u v first news_done,
                add_facts-Founded rt s decision.new_facts _ facts sound.1 facts_done,
              ))
              last)
          next)
      ((required (not (is_empty s.last_observations))
        (value_error "hypothesis updater requires an observation") _ h).1)
