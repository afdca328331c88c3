-- ===== src/Templates/Select.antt =====
-- `select_template` of services/templates.py, and `ReportTemplate` of api/models.py.
pub mod Laws
use aiops_rca_orchestrator.Common.{ℕ, Bool, Option, none, some, String, List, keep, find, ◌=ₜ◌}
use aiops_rca_orchestrator.Common.Dict.{Dict}
use aiops_rca_orchestrator.Common.Text.{◌<>◌}
use aiops_rca_orchestrator.Common.Value.{Value}
use aiops_rca_orchestrator.Common.Outcome.{Outcome, ok, raised, value_error, ◌>>=◌}
use aiops_rca_orchestrator.Schema.Investigation.{UnknownItem, unknown_item}

pub record ReportTemplate : Type 0 where
  pub template_id : String
  pub version : ℕ
  pub title : String
  pub description : String
  pub enabled : Bool
  pub collection : Dict Value
  pub output : Dict Value

-- The first enabled template of this id.
unfoldable pub enabled_template : String → List ReportTemplate → Option ReportTemplate
enabled_template id templates = find (λ t. t.template_id =ₜ id) (keep (λ t. t.enabled) templates)

abbrev pub fallback_id : String
fallback_id = "incident_rca"

unfoldable pub not_in_catalog : String → ReportTemplate → Outcome UnknownItem
not_in_catalog requested_id fallback =
    unknown_item "report_kind_not_in_catalog"
      ("요청된 보고서 종류 '"
        <> (requested_id
            <> ("'가 카탈로그에 없어 '" <> (fallback.template_id <> "'로 조사했다. 조사 범위와 구성이 요청과 다를 수 있다."))))
      none none

abbrev pub Selected : Type 0
Selected = ReportTemplate × Option UnknownItem

unfoldable pub fall_back : String → Option ReportTemplate → Outcome Selected
unfolding not_in_catalog
fall_back requested_id none = raised (value_error "incident_rca fallback template is missing")
fall_back requested_id (some fallback) =
    not_in_catalog requested_id fallback >>= λ unknown. ok (fallback, some unknown)

-- `select_template(requested_id, templates)`
unfoldable pub select_template : String → List ReportTemplate → Outcome Selected
unfolding enabled_template fall_back
select_template requested_id templates = elim (enabled_template requested_id templates) [
  | none ↦ fall_back requested_id (enabled_template fallback_id templates)
  | some selected ↦ ok (selected, none)
]
