-- ===== src/Adapter/Failures.antt =====
-- `describe_failure` of tools/adapters/base.py.
use aiops_rca_orchestrator.Common.{String, List, [], ◌∷◌, ◌=ₜ◌, if◌then◌else◌}
use aiops_rca_orchestrator.Common.Text.{join}
use aiops_rca_orchestrator.Common.Value.{Runtime}
use aiops_rca_orchestrator.Common.Outcome.{
  Failure, plain, group, Failures, nil, cons, Exception, value_error, runtime_error, type_error,
  validation_error, failure, tool_policy_error,
}

-- `str(exception).strip() or exception.__class__.__name__`
abbrev stripped : Runtime → String → String → String
stripped rt class_name text = if rt.strip text =ₜ "" then class_name else rt.strip text

abbrev or_class : String → String
or_class inner = if inner =ₜ "" then "ExceptionGroup" else inner

unfoldable mutual
  unfolding join

  pub describe_group : Runtime → Failure → String
  describe_group rt (plain class_name text) = stripped rt class_name text
  describe_group rt (group failures) = or_class (join "; " (describe_members rt failures))

  pub describe_members : Runtime → Failures → List String
  describe_members rt nil = []
  describe_members rt (cons f fs) = describe_group rt f ∷ describe_members rt fs

-- `describe_failure`
unfoldable pub describe_failure : Runtime → Exception → String
unfolding describe_group
describe_failure rt (value_error text) = stripped rt "ValueError" text
describe_failure rt (runtime_error text) = stripped rt "RuntimeError" text
describe_failure rt (type_error text) = stripped rt "TypeError" text
describe_failure rt (validation_error text) = stripped rt "ValidationError" text
describe_failure rt (tool_policy_error text retryable) = stripped rt "ToolPolicyError" text
describe_failure rt (failure f) = describe_group rt f
