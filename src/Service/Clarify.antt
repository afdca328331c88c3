-- ===== src/Service/Clarify.antt =====
-- `_clarification_lines` of services/investigation.py: what the asker is asked back.
pub mod Laws
use aiops_rca_orchestrator.Common.{
  ℕ, Bool, not, ◌||◌, String, List, [], ◌∷◌, ◌++◌, map, keep, take, ◌=ₜ◌,
}
use aiops_rca_orchestrator.Common.Text.{text_take}
use aiops_rca_orchestrator.Schema.Investigation.{UnknownItem}

abbrev pub max_ambiguities : ℕ
max_ambiguities = 20

abbrev pub max_ambiguity_chars : ℕ
max_ambiguity_chars = 500

-- An unknown that the asker can act on.
unfoldable pub actionable : UnknownItem → Bool
actionable item = item.code =ₜ "host_not_found" || item.code =ₜ "host_ambiguous"

unfoldable pub ordered : List UnknownItem → List UnknownItem
unfolding actionable
ordered unknowns = keep actionable unknowns ++ keep (λ item. not (actionable item)) unknowns

abbrev pub line : UnknownItem → String
line item = text_take max_ambiguity_chars item.message

abbrev pub or_default : List String → List String
or_default [] = "조사할 호스트를 하나 이상 확인할 수 없습니다." ∷ []
or_default (l ∷ ls) = l ∷ ls

-- `_clarification_lines(unknowns)`
unfoldable pub clarification_lines : List UnknownItem → List String
unfolding ordered
clarification_lines unknowns = or_default (map line (take max_ambiguities (ordered unknowns)))
