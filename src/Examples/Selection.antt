-- ===== src/Examples/Selection.antt =====
-- The properties of the templates and of the analyzer's turn at concrete inputs.
use aiops_rca_orchestrator.Common.{
  ◌+◌, ◌*◌, ◌≡◌, ◌↔◌, refl, arith, true, false, none, String, [], ◌∷◌, inl, ◌=ₜ◌,
}
use aiops_rca_orchestrator.Common.Text.{matches_template_id, within_optional}
use aiops_rca_orchestrator.Common.Outcome.{ok}
use aiops_rca_orchestrator.Templates.Select.{select_template}
use aiops_rca_orchestrator.Templates.Select.Laws.{Chosen, select_template-Chosen}
use aiops_rca_orchestrator.Templates.Window.{day, hour, Span, window}
use aiops_rca_orchestrator.Templates.Window.Laws.{Open, Bounded, InOrder, ValidHint, window-opens}
use aiops_rca_orchestrator.Templates.Limits.{prepare_collection}
use aiops_rca_orchestrator.Templates.Limits.Laws.{Valid, Prepared, prepare_collection-Prepared}
use aiops_rca_orchestrator.Templates.Contract.{SectionContract, parse_sections, validate_template}
use aiops_rca_orchestrator.Templates.Contract.Laws.{Sound, validate_template_iff}
use aiops_rca_orchestrator.Service.Analyze.{analyze}
use aiops_rca_orchestrator.Service.Analyze.Laws.{AsAsked, analyze-AsAsked}
use aiops_rca_orchestrator.Examples.Samples.{rt}
use aiops_rca_orchestrator.Examples.Requests.{api, service, parsed, template, zone}
use aiops_rca_orchestrator.Examples.Results.{is_ok, value, value-eq}

accepted : analyze service.analyzer api ≡ ok parsed
unfolding analyze ◌=ₜ◌
accepted = refl

chosen : select_template "incident_rca" api.templates ≡ ok (template, none)
unfolding select_template ◌=ₜ◌
chosen = refl

analyze-AsAsked_example :
    ((parsed.request_id =ₜ api.request.request_id) ≡ true)
    × AsAsked parsed.request_type api.templates (template, none)
analyze-AsAsked_example =
    analyze-AsAsked service.analyzer api parsed (template, none) accepted chosen

select_template-Chosen_example : Chosen "incident_rca" api.templates (template, none)
select_template-Chosen_example = select_template-Chosen "incident_rca" api.templates chosen

prepared :
    is_ok (prepare_collection rt zone service.parse service.instant template parsed api.request)
    ≡ true
unfolding is_ok prepare_collection ◌=ₜ◌
prepared = refl

prepare_collection-Prepared_example :
    Prepared service.instant template.collection api.request.received_at
      (value
        (prepare_collection rt zone service.parse service.instant template parsed api.request)
        prepared).0
    × Valid
        (value
          (prepare_collection rt zone service.parse service.instant template parsed api.request)
          prepared).1
unfolding ValidHint InOrder
prepare_collection-Prepared_example =
    prepare_collection-Prepared rt zone service.parse service.instant template parsed api.request
      (omega arith, omega arith) (omega arith)
      (value-eq
        (prepare_collection rt zone service.parse service.instant template parsed api.request)
        prepared)

window-opens_example :
    (w : Span) × (window (39 * day) (40 * day + hour) (40 * day) ≡ ok w)
    × Open w
    × Bounded (40 * day) w
window-opens_example =
    window-opens (39 * day) (40 * day + hour) (40 * day) (omega arith) (omega arith) (omega arith)
      (inl (omega arith))

abbrev contract : String → SectionContract
contract id = record {
  id = id;
  heading = none;
  instruction = none;
  required = true;
  requires_problem_event = false;
}

read : parse_sections rt template.output ≡ ok (contract "cause" ∷ contract "limitations" ∷ [])
unfolding parse_sections ◌=ₜ◌ matches_template_id within_optional
read = refl

validate_template_iff_example :
    (validate_template rt template.output ≡ ok [])
    ↔ Sound (contract "cause" ∷ contract "limitations" ∷ [])
validate_template_iff_example =
    validate_template_iff rt template.output (contract "cause" ∷ contract "limitations" ∷ []) read
