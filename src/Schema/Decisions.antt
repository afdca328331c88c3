-- ===== src/Schema/Decisions.antt =====
-- services/model_contracts.py: what the language model answers at each stage.
use aiops_rca_orchestrator.Common.{Bool, Option, String, List}
use aiops_rca_orchestrator.Schema.Investigation.{Hypothesis, HypothesisStatus, QuestionScope}

pub record HypothesisPlan : Type 0 where
  pub hypotheses : List Hypothesis
  pub stop_reason : Option String

pub record HypothesisExpectation : Type 0 where
  pub hypothesis_id : String
  pub prediction : String

pub record PlannedObservation : Type 0 where
  pub question : String
  pub discriminates_hypothesis_ids : List String
  pub expected_if_true : List HypothesisExpectation
  pub expected_if_false : List HypothesisExpectation
  pub temporal_scope : QuestionScope
  pub required_tool : String
  pub host : Option String
  pub arguments_json : String
  pub generic_fallback_allowed : Bool

pub record ObservationDecision : Type 0 where
  pub observations : List PlannedObservation
  pub stop_reason : Option String

pub record HypothesisUpdate : Type 0 where
  pub hypothesis_id : String
  pub status : HypothesisStatus
  pub supporting_evidence_ids : List String
  pub counter_evidence_ids : List String
  pub rationale : Option String

pub record FactDecision : Type 0 where
  pub fact : String
  pub evidence_ids : List String

pub record HypothesisUpdateDecision : Type 0 where
  pub updates : List HypothesisUpdate
  pub new_hypotheses : List Hypothesis
  pub new_facts : List FactDecision
  pub stop_reason : Option String

pub record DiscoveredHost : Type 0 where
  pub host : String
  pub host_id : Option String
  pub found_by : String

pub record HostSearchDecision : Type 0 where
  pub hosts : List DiscoveredHost
  pub tool_name : Option String
  pub arguments_json : String
  pub stop_reason : Option String

pub record PhenomenonScan : Type 0 where
  pub host : String
  pub tool_name : String
  pub arguments_json : String

pub record PhenomenonScanPlan : Type 0 where
  pub scans : List PhenomenonScan
  pub stop_reason : Option String
