-- ===== src/Examples/Documents.antt =====
-- The properties of the checks and of the transport at concrete inputs.
use aiops_rca_orchestrator.Common.{
  ℕ, zero, suc, ◌≡◌, ◌↔◌, refl, arith, true, false, Option, none, some, String, List, [], ◌∷◌, all,
  length, is_empty, inl, ◌=ₜ◌,
}
use aiops_rca_orchestrator.Common.Dict.{Dict}
use aiops_rca_orchestrator.Common.Text.{contains}
use aiops_rca_orchestrator.Common.Value.{
  Value, null, bool, str, list, dict, nil, cons, Items, Fields, field, end, entries, items, get,
  to_str,
}
use aiops_rca_orchestrator.Common.Outcome.{Outcome, ok, raised, runtime_error}
use aiops_rca_orchestrator.Nodes.Writer.{Finding}
use aiops_rca_orchestrator.Service.Report.{references, checked_report, package_ids}
use aiops_rca_orchestrator.Checks.Documents.{Document, mappings, sections_of, iterated}
use aiops_rca_orchestrator.Checks.Dumped.{report_document}
use aiops_rca_orchestrator.Checks.References.{known_ids, evidence_refs_resolve}
use aiops_rca_orchestrator.Checks.References.Laws.{
  evidence_refs_resolve_iff, checked_report-resolves,
}
use aiops_rca_orchestrator.Checks.Counts.Laws.{here, in_dict, first_field, later_field}
use aiops_rca_orchestrator.Checks.Claims.{cited_items, item_claims, without_commas}
use aiops_rca_orchestrator.Checks.Claims.Laws.{Carries, Grounded, item_claims-Carries}
use aiops_rca_orchestrator.Checks.Counts.{own_quantities}
use aiops_rca_orchestrator.Checks.Limits
use aiops_rca_orchestrator.Checks.Limits.{stated, required_sections_are_answered}
use aiops_rca_orchestrator.Checks.Limits.Laws.{Answered, required_sections_are_answered_iff}
use aiops_rca_orchestrator.Transport.{
  CallResult, is_remote, read_result, call_tool, Page, list_pages,
}
use aiops_rca_orchestrator.Transport.Laws.{
  Fails, Decides, call_tool-Decides, call_tool-Fails, list_pages-Chain, last_page, more_pages,
}
use aiops_rca_orchestrator.Examples.Samples.{rt}
use aiops_rca_orchestrator.Examples.Requests.{template, draft, pack, reader}
use aiops_rca_orchestrator.Examples.Results.{is_ok, value, value-eq}

-- A package with the two events, of which the second has a list of two.
abbrev evidence_document : String → Value
evidence_document id =
    dict (field "evidence_id" (str id) (field "rows" (list (cons null (cons null nil))) end))

abbrev package_document : Document
package_document =
    (
      "evidence",
      list (cons (evidence_document "zbx:event:1") (cons (evidence_document "zbx:event:2") nil)),
    )
    ∷ ("hypotheses", list nil)
    ∷ []

ids_known : known_ids package_document ≡ package_ids pack.evidence
unfolding known_ids ◌=ₜ◌
ids_known = refl

written : is_ok (checked_report (draft ("zbx:event:1" ∷ [])) template.output pack.evidence) ≡ true
unfolding is_ok checked_report ◌=ₜ◌
written = refl

checked_report-resolves_example :
    evidence_refs_resolve reader package_document (
      report_document
        (value (checked_report (draft ("zbx:event:1" ∷ [])) template.output pack.evidence) written))
    ≡ ok []
checked_report-resolves_example =
    checked_report-resolves reader package_document (draft ("zbx:event:1" ∷ []))
      (value (checked_report (draft ("zbx:event:1" ∷ [])) template.output pack.evidence) written)
      template.output pack.evidence ids_known
      (value-eq (checked_report (draft ("zbx:event:1" ∷ [])) template.output pack.evidence) written)

evidence_refs_resolve_iff_example :
    (fs : List Finding) × (evidence_refs_resolve reader package_document
        (report_document (draft ("zbx:event:9" ∷ [])))
      ≡ ok fs)
    × (is_empty fs
        ≡ all
            (contains (known_ids package_document))
            (references (draft ("zbx:event:9" ∷ [])).sections))
evidence_refs_resolve_iff_example =
    evidence_refs_resolve_iff reader package_document (draft ("zbx:event:9" ∷ []))

-- An item that states two counts, each of its own list in the evidence.
abbrev citing : Document
citing = ("text", str "2건, 1건") ∷ ("evidence_refs", list (cons (str "zbx:event:2") nil)) ∷ []

abbrev two_claims : List (String × String)
two_claims = ("2", "건") ∷ ("1", "건") ∷ []

abbrev counted_rows : Fields
counted_rows =
    field "rows" (list (cons null (cons null nil))) (field "hosts" (list (cons null nil)) end)

abbrev known_items : Dict Document
known_items = ("zbx:event:2", entries counted_rows) ∷ []

abbrev cited : List Document
cited = entries counted_rows ∷ []

cited_read : cited_items known_items (str "zbx:event:2" ∷ []) ≡ ok cited
unfolding cited_items ◌=ₜ◌
cited_read = refl

refs_read : iterated reader (get "evidence_refs" citing) ≡ ok (str "zbx:event:2" ∷ [])
unfolding iterated ◌=ₜ◌
refs_read = refl

judged : is_ok (item_claims reader known_items "cause" citing two_claims) ≡ true
unfolding is_ok item_claims ◌=ₜ◌ own_quantities
judged = refl

item_claims-Carries_example :
    value (item_claims reader known_items "cause" citing two_claims) judged ≡ []
unfolding Carries Grounded ◌=ₜ◌ without_commas
item_claims-Carries_example =
    item_claims-Carries reader known_items "cause" citing two_claims (str "zbx:event:2" ∷ []) cited
      refs_read cited_read
      (
        (2, refl, inl (in_dict _ (first_field "rows" _ _ (here (cons null (cons null nil)))))),
        (
          (
            1,
            refl,
            inl (
                in_dict _
                  (later_field "rows" _ _ (first_field "hosts" _ end (here (cons null nil))))),
          ),
          tt,
        ),
      )
      (value-eq (item_claims reader known_items "cause" citing two_claims) judged)

-- A report that fills the required section and states no limit.
abbrev answering : Document
answering =
    (
      "sections",
      list (cons (dict (field "id" (str "cause") (field "body" (str "a full disk") end))) nil),
    )
    ∷ []

abbrev demanded : Items
demanded =
    cons (dict (field "id" (str "cause") (field "required" (bool true) end)))
      (cons (dict (field "id" (str "timeline") (field "required" (bool false) end))) nil)

abbrev demanding : Document
demanding = ("sections", list demanded) ∷ []

some_section : is_empty (sections_of answering) ≡ false
unfolding sections_of ◌=ₜ◌
some_section = refl

no_limit : stated (Limits.limitations reader answering) ≡ false
unfolding stated Limits.limitations ◌=ₜ◌ to_str
no_limit = refl

demanded_list : get "sections" demanding ≡ list demanded
unfolding ◌=ₜ◌
demanded_list = refl

required_sections_are_answered_iff_example :
    (required_sections_are_answered reader answering demanding ≡ [])
    ↔ Answered reader (sections_of answering) (mappings (items demanded))
required_sections_are_answered_iff_example =
    required_sections_are_answered_iff reader answering demanding demanded demanded_list
      some_section no_limit

-- A server that is down once, and then answers.
abbrev flaky : ℕ → Outcome CallResult
flaky k = elim k [
  | zero ↦ raised (runtime_error "down")
  | suc n ↦ ok (record { is_error = false; structured_content = some (str "up"); content = [] })
]

call_tool-Decides_example :
    ((call_tool rt 2 flaky).0 ≡ ok (str "up")) × (length (call_tool rt 2 flaky).1 ≡ 1)
unfolding Fails Decides is_remote read_result
call_tool-Decides_example =
    call_tool-Decides rt 2 1 flaky (ok (str "up")) ((runtime_error "down", refl, refl), tt) refl tt
      (omega arith)

abbrev silent_server : ℕ → Outcome CallResult
silent_server k = raised (runtime_error "down")

call_tool-Fails_example :
    ((call_tool rt 2 silent_server).0 ≡ raised (runtime_error "down"))
    × (length (call_tool rt 2 silent_server).1 ≡ 1)
unfolding Fails is_remote
call_tool-Fails_example =
    call_tool-Fails rt 1 silent_server (runtime_error "down")
      ((runtime_error "down", refl, refl), ((runtime_error "down", refl, refl), tt)) refl

-- Two pages of one tool each.
abbrev page : Option String → Outcome Page
page none = ok (record { tools = [] ∷ []; next_cursor = some "next" })
page (some cursor) = ok (record { tools = [] ∷ []; next_cursor = none })

list_pages-Chain_example : list_pages 5 page none [] ≡ ok (some ([] ∷ [] ∷ []))
unfolding ◌=ₜ◌
list_pages-Chain_example =
    list_pages-Chain page 5 2 none [] ([] ∷ [] ∷ [])
      (more_pages none (record { tools = [] ∷ []; next_cursor = some "next" }) "next" refl refl
        (last_page (some "next") (record { tools = [] ∷ []; next_cursor = none }) refl refl))
      (omega arith)
