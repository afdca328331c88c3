-- ===== src/Service/Models/Laws.antt =====
-- Every stage of the collector has a model, and the audit row names it.
use aiops_rca_orchestrator.Common.{◌≡◌, refl, ap, ◌∙◌, String, List, [], ◌∷◌, ◌=ₜ◌, text_eq_refl}
use aiops_rca_orchestrator.Common.Text.{join, dedupe_from}
use aiops_rca_orchestrator.Common.Outcome.{ok}
use aiops_rca_orchestrator.Nodes.World.{text_or}
use aiops_rca_orchestrator.Service.Models.{Settings, stage_setting, model_for, collector_models}

-- The models of the five stages, each its own or the default.
pub models_of : Settings → List String
models_of s =
    text_or s.rca_model_resolve_hosts s.rca_model
    ∷ text_or s.rca_model_establish_phenomenon s.rca_model
    ∷ text_or s.rca_model_hypothesis_planner s.rca_model
    ∷ text_or s.rca_model_observation_planner s.rca_model
    ∷ text_or s.rca_model_hypothesis_updater s.rca_model
    ∷ []

-- The audit row of the collector is always written, and names each model that a stage of the
-- collector runs on once, in the order of the stages.
pub collector_models-total :
    (s : Settings) → collector_models s ≡ ok (join "+" (dedupe_from [] (models_of s)))
unfolding collector_models model_for stage_setting ◌=ₜ◌ models_of
collector_models-total s = refl

-- Where no stage of the collector has a model of its own, the row names the default and nothing else.
pub collector_models-default :
    (s : Settings)
    → models_of s ≡ s.rca_model ∷ s.rca_model ∷ s.rca_model ∷ s.rca_model ∷ s.rca_model ∷ []
    → collector_models s ≡ ok s.rca_model
unfolding join
collector_models-default s h =
    collector_models-total s
    ∙ ap (λ ms. ok (join "+" (dedupe_from [] ms))) h
    ∙ rw (text_eq_refl s.rca_model) refl
