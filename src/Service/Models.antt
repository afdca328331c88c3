-- ===== src/Service/Models.antt =====
-- The models of the stages: `model_for` of config/settings.py, and `_collector_models` of
-- services/investigation.py.
pub mod Laws
use aiops_rca_orchestrator.Common.{
  Bool, Option, none, some, String, List, [], ◌∷◌, ◌=ₜ◌, if◌then◌else◌,
}
use aiops_rca_orchestrator.Common.Text.{◌<>◌, join, dedupe_from}
use aiops_rca_orchestrator.Common.Outcome.{Outcome, ok, raised, failure, plain, ◌>>=◌, traverse}
use aiops_rca_orchestrator.Nodes.World.{text_or}

-- The part of the settings that names models.
pub record Settings : Type 0 where
  pub rca_model : String
  pub rca_model_question_analyzer : Option String
  pub rca_model_resolve_hosts : Option String
  pub rca_model_establish_phenomenon : Option String
  pub rca_model_hypothesis_planner : Option String
  pub rca_model_observation_planner : Option String
  pub rca_model_hypothesis_updater : Option String
  pub rca_model_report_writer : Option String

-- `getattr(self, f"rca_model_{stage}")`
unfoldable pub stage_setting : Settings → String → Outcome (Option String)
stage_setting s stage =
    if stage =ₜ "question_analyzer"
    then ok s.rca_model_question_analyzer
    else if stage =ₜ "resolve_hosts"
    then ok s.rca_model_resolve_hosts
    else if stage =ₜ "establish_phenomenon"
    then ok s.rca_model_establish_phenomenon
    else if stage =ₜ "hypothesis_planner"
    then ok s.rca_model_hypothesis_planner
    else if stage =ₜ "observation_planner"
    then ok s.rca_model_observation_planner
    else if stage =ₜ "hypothesis_updater"
    then ok s.rca_model_hypothesis_updater
    else if stage =ₜ "report_writer"
    then ok s.rca_model_report_writer
    else raised
        (failure (plain "AttributeError" ("object has no attribute 'rca_model_" <> (stage <> "'"))))

-- `settings.model_for(stage)`
unfoldable pub model_for : Settings → String → Outcome String
unfolding stage_setting
model_for s stage = stage_setting s stage >>= λ setting. ok (text_or setting s.rca_model)

-- `COLLECTOR_STAGES`
abbrev pub collector_stages : List String
collector_stages =
    "resolve_hosts" ∷ "establish_phenomenon" ∷ "hypothesis_planner" ∷ "observation_planner"
    ∷ "hypothesis_updater" ∷ []

-- `_collector_models(settings)`
unfoldable pub collector_models : Settings → Outcome String
unfolding model_for join
collector_models s =
    traverse (model_for s) collector_stages >>= λ used. ok (join "+" (dedupe_from [] used))
