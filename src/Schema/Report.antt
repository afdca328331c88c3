-- ===== src/Schema/Report.antt =====
-- schemas/report.py.
use aiops_rca_orchestrator.Common.{Option, String, List}

pub record ReportItem : Type 0 where
  pub text : String
  pub label : Option String
  pub evidence_refs : List String
  pub counter_evidence_refs : List String

pub record ReportSection : Type 0 where
  pub id : String
  pub body : Option String
  pub items : List ReportItem

pub record Report : Type 0 where
  pub title : String
  pub sections : List ReportSection
