-- ===== src/Service/Examples.antt =====
-- `_without_examples` of services/investigation.py: a schema without its example values.
pub mod Laws
use aiops_rca_orchestrator.Common.{Bool, ◌||◌, String, ◌=ₜ◌, if◌then◌else◌}
use aiops_rca_orchestrator.Common.Value.{
  Value, null, bool, int, real, str, list, dict, Items, nil, cons, Fields, end, field,
}

-- A key that holds examples.
abbrev pub is_example : String → Bool
is_example key = key =ₜ "example" || key =ₜ "examples"

-- `_without_examples(value)`
unfoldable mutual
  pub without_examples : Value → Value
  without_examples null = null
  without_examples (bool b) = bool b
  without_examples (int n) = int n
  without_examples (real m e) = real m e
  without_examples (str s) = str s
  without_examples (list vs) = list (items_without vs)
  without_examples (dict fs) = dict (fields_without fs)

  pub items_without : Items → Items
  items_without nil = nil
  items_without (cons v vs) = cons (without_examples v) (items_without vs)

  pub fields_without : Fields → Fields
  fields_without end = end
  fields_without (field k v fs) =
      if is_example k then fields_without fs else field k (without_examples v) (fields_without fs)
