-- ===== src/Service/Analyze/Laws.antt =====
-- The analyzer's answer names a kind of the catalog, so that the template asked for is always found.
use aiops_rca_orchestrator.Common.{
  ◌≡◌, ◌≢◌, refl, sym, subst, Bool, true, false, inl, inr, none, String, List, [], ◌∷◌, is_empty,
  ◌=ₜ◌, if◌then◌else◌, arith, Bool-cases, not, ◌&&◌, ◌≤◌, all, length, leb,
}
use aiops_rca_orchestrator.Common.Laws.{text_eq_sym}
use aiops_rca_orchestrator.Common.Text.{contains, within, text_length}
use aiops_rca_orchestrator.Common.Outcome.{
  Outcome, ok, raised, value_error, validation_error, traverse, after, required, ok-injective,
}
use aiops_rca_orchestrator.Schema.Investigation.{ParsedRequest}
use aiops_rca_orchestrator.Templates.Select.{
  ReportTemplate, Selected, enabled_template, fallback_id, select_template,
}
use aiops_rca_orchestrator.Templates.Select.Laws.{Offers, Chosen, select_template-Chosen}
use aiops_rca_orchestrator.Service.Analyze.{
  InvestigationApiRequest, Question, catalog_line, enabled_templates, enabled_ids,
  parsed_request_fits, analyzer_output_type, analyze,
}

-- An answer that is accepted: to this request, and of the type that the catalog gives it.
pub Accepted : InvestigationApiRequest → ParsedRequest → Type 0
Accepted api parsed =
    ((parsed.request_id =ₜ api.request.request_id) ≡ true)
    × (analyzer_output_type (enabled_ids api.templates) parsed ≡ true)

same_request :
    (b : Bool) (parsed : ParsedRequest) {p : ParsedRequest}
    → (if not b then raised (value_error "question analyzer changed request_id") else ok parsed)
      ≡ ok p
    → (b ≡ true) × (parsed ≡ p)
same_request true parsed {p} h = (refl, ok-injective parsed p h)
same_request false parsed {p} h = absurd (cc)

analyze-Accepted :
    (complete : Question → Outcome ParsedRequest) (api : InvestigationApiRequest)
    {parsed : ParsedRequest}
    → analyze complete api ≡ ok parsed
    → Accepted api parsed
unfolding analyze Accepted
analyze-Accepted complete api {parsed} =
    after (Accepted api) (traverse catalog_line (enabled_templates api.templates)) _ (λ lines a.
      after (Accepted api) (complete _) _ (λ p b c.
        let typed =
          required (analyzer_output_type (enabled_ids api.templates) p)
            (validation_error "CatalogBoundParsedRequest") _ c in
        let same = same_request (p.request_id =ₜ api.request.request_id) p typed.1 in
        subst (Accepted api) same.1 (same.0, typed.0)))

listed-found :
    (id : String) (ts : List ReportTemplate)
    → contains (enabled_ids ts) id ≡ true
    → enabled_template id ts ≢ none
unfolding enabled_template
listed-found id [] h = absurd (cc)
listed-found id (t ∷ ts) h =
    let turned = text_eq_sym id t.template_id in
    let rest : contains (enabled_ids ts) id ≡ true → enabled_template id ts ≢ none =
      listed-found id ts in
    λ e. elim (Bool-cases t.enabled) [
      | inl open_one ↦ elim (Bool-cases (t.template_id =ₜ id)) [
        | inl same ↦ ground arith
        | inr other ↦ rest (ground arith) (rw (open_one, other) at e)
      ]
      | inr shut ↦ rest (ground arith) (rw shut at e)
    ]

Offers-enabled :
    (id : String) (ts : List ReportTemplate) (t : ReportTemplate)
    → Offers id ts t
    → is_empty (enabled_ids ts) ≡ false
unfolding Offers
Offers-enabled id [] t offered = elim offered [ ]
Offers-enabled id (s ∷ ts) t (inl (same, open_one, named)) =
    rw (subst (λ x. x.enabled ≡ true) (sym same) open_one) refl
Offers-enabled id (s ∷ ts) t (inr rest) =
    let later = Offers-enabled id ts t rest in
    elim (Bool-cases s.enabled) [ inl open_one ↦ rw open_one refl | inr shut ↦ rw shut later ]

-- The template asked for is the one chosen, and there is nothing to tell.
unfoldable pub AsAsked : String → List ReportTemplate → Selected → Type 0
AsAsked id ts choice = Offers id ts choice.0 × (choice.1 ≡ none)

left_of : (b c : Bool) → (b && c) ≡ true → b ≡ true
left_of b c h = ground arith

of_type : (b c : Bool) → (b && c) ≡ true → c ≡ true
of_type b c h = ground arith

typed-AsAsked :
    (parsed : ParsedRequest) (ts : List ReportTemplate) (choice : Selected)
    → analyzer_output_type (enabled_ids ts) parsed ≡ true
    → Chosen parsed.request_type ts choice
    → AsAsked parsed.request_type ts choice
unfolding Chosen AsAsked analyzer_output_type
typed-AsAsked parsed ts choice typed (inl asked) = asked
typed-AsAsked parsed ts choice typed (inr (missing, offered, told)) =
    let filled = Offers-enabled fallback_id ts choice.0 offered in
    let narrowed = of_type (parsed_request_fits parsed) _ typed in
    absurd (listed-found parsed.request_type ts (rw filled at narrowed) missing)

-- At most 20 lines of at most 500 characters.
unfoldable pub Short : List String → Type 0
Short lines = (length lines ≤ 20) × (all (λ l. leb (text_length l) 500) lines ≡ true)

within-short :
    (lines : List String)
    → all (within 1 500) lines ≡ true
    → all (λ l. leb (text_length l) 500) lines ≡ true
unfolding within
within-short [] h = refl
within-short (l ∷ ls) h = ground (arith, within-short ls)

fits-Short : (parsed : ParsedRequest) → parsed_request_fits parsed ≡ true → Short parsed.ambiguities
unfolding Short parsed_request_fits
fits-Short parsed h = (ground arith, within-short parsed.ambiguities (ground arith))

-- What an accepted answer asks back keeps to the contract.
pub analyze-Short :
    (complete : Question → Outcome ParsedRequest) (api : InvestigationApiRequest)
    (parsed : ParsedRequest)
    → analyze complete api ≡ ok parsed
    → Short parsed.ambiguities
unfolding Accepted analyzer_output_type
analyze-Short complete api parsed answered =
    fits-Short parsed (left_of _ _ (analyze-Accepted complete api answered).1)

-- If the analyzer's answer is accepted and a template is selected for it, then the answer is to this
-- request, and the template is an enabled one under the very id that the answer names: the fallback
-- to `incident_rca` with its unknown is never taken.
pub analyze-AsAsked :
    (complete : Question → Outcome ParsedRequest) (api : InvestigationApiRequest)
    (parsed : ParsedRequest) (choice : Selected)
    → analyze complete api ≡ ok parsed
    → select_template parsed.request_type api.templates ≡ ok choice
    → ((parsed.request_id =ₜ api.request.request_id) ≡ true)
      × AsAsked parsed.request_type api.templates choice
unfolding Accepted
analyze-AsAsked complete api parsed choice answered selected =
    let accepted = analyze-Accepted complete api answered in
    (
      accepted.0,
      typed-AsAsked parsed api.templates choice accepted.1
          (select_template-Chosen parsed.request_type api.templates selected),
    )
