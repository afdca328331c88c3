-- ===== src/Templates/Limits/Laws.antt =====
-- The limits of a prepared collection are within the bounds on which the graph's runs rely.
use aiops_rca_orchestrator.Common.{
  ℕ, ◌≤◌, ◌≡◌, refl, true, ◌&&◌, String, arith, subst, and_left, and_right, some, [], ◌∷◌, ◌=ₜ◌,
  text_eq_refl, text_eq_iff, Bool-cases, inl, inr, false,
}
use aiops_rca_orchestrator.Common.Dict.{Dict, insert, lookup}
use aiops_rca_orchestrator.Common.Value.{Value, ℤ, pos, negsuc, get, or_else, Runtime}
use aiops_rca_orchestrator.Common.Outcome.{
  Outcome, ok, validation_error, after, required, ok-injective,
}
use aiops_rca_orchestrator.Schema.Investigation.{
  Moment, InvestigationLimits, ParsedRequest, RequestEnvelope,
}
use aiops_rca_orchestrator.Templates.Select.{ReportTemplate}
use aiops_rca_orchestrator.Templates.Window.{Zone, Span, resolve_window, range_of}
use aiops_rca_orchestrator.Templates.Window.Laws.{Bounded, ValidHint, InOrder, range_window-Bounded}
use aiops_rca_orchestrator.Templates.Limits.{
  int_of, at_most, in_range, size, number, investigation_limits, resolved_limits, default_calls,
  window_value, prepare_collection,
}

-- The bounds of `InvestigationLimits`.
unfoldable pub Valid : InvestigationLimits → Type 0
Valid limits =
    (1 ≤ limits.max_iterations)
    × (limits.max_iterations ≤ 20)
    × (1 ≤ limits.max_tool_calls)
    × (limits.max_tool_calls ≤ 100)
    × (1 ≤ limits.max_duration_seconds)
    × (limits.max_duration_seconds ≤ 3600)

size-in_range : (most : ℕ) (n : ℤ) → in_range most n ≡ true → (1 ≤ size n) × (size n ≤ most)
size-in_range most (pos n) h = (ground arith, ground arith)
size-in_range most (negsuc n) h = absurd (cc)

investigation_limits-Valid :
    (calls iterations seconds : ℤ) {limits : InvestigationLimits}
    → investigation_limits calls iterations seconds ≡ ok limits
    → Valid limits
unfolding investigation_limits Valid
investigation_limits-Valid calls iterations seconds {limits} h =
    let c = in_range 100 calls in
    let i = in_range 20 iterations in
    let d = in_range 3600 seconds in
    let met = required (c && (i && d)) (validation_error "InvestigationLimits") _ h in
    let ci = size-in_range 100 calls (and_left c (i && d) met.0) in
    let id = and_right c (i && d) met.0 in
    let ii = size-in_range 20 iterations (and_left i d id) in
    let dd = size-in_range 3600 seconds (and_right i d id) in
    subst Valid (ok-injective _ limits met.1) (ii.0, ii.1, ci.0, ci.1, dd.0, dd.1)

resolved_limits-Valid :
    (parse : String → Outcome ℤ) (limits : Dict Value) (parsed : ParsedRequest)
    {resolved : InvestigationLimits}
    → resolved_limits parse limits parsed ≡ ok resolved
    → Valid resolved
unfolding resolved_limits
resolved_limits-Valid parse limits parsed =
    after Valid (int_of parse (or_else (get "max_iterations" limits) (number 10))) _
      (λ iterations a.
        after Valid
          (int_of parse (or_else (get "max_tool_calls" limits) (number (default_calls parsed)))) _
          (λ calls b.
            after Valid (int_of parse (or_else (get "max_duration_seconds" limits) (number 600))) _
              (λ seconds c. investigation_limits-Valid (at_most 100 calls) iterations seconds)))

-- The limits of a prepared collection, whatever its window.
pub prepare_collection-Valid :
    (rt : Runtime) (zone : Outcome Zone) (parse : String → Outcome ℤ) (instant : Moment → String)
    (template : ReportTemplate) (parsed : ParsedRequest) (request : RequestEnvelope)
    {result : Dict Value × InvestigationLimits}
    → prepare_collection rt zone parse instant template parsed request ≡ ok result
    → Valid result.1
unfolding prepare_collection
prepare_collection-Valid rt zone parse instant template parsed request {result} =
    let P : Dict Value × InvestigationLimits → Type 0 = λ r. Valid r.1 in
    after P (resolve_window rt zone template.collection parsed request) _ (λ w a.
      after P (resolved_limits parse _ parsed) _
        (λ limits b c. subst P (ok-injective _ result c) (resolved_limits-Valid parse _ parsed b)))

lookup-insert {ℓ} :
    {V : Type ℓ} (k : String) (v : V) (d : Dict V) → lookup k (insert k v d) ≡ some v
lookup-insert k v [] = rw (text_eq_refl k) refl
lookup-insert k v ((j, w) ∷ d) = elim (Bool-cases (k =ₜ j)) [
  | inl same ↦ rw (same, same) refl
  | inr other ↦ rw (other, other, lookup-insert k v d) refl
]

lookup-insert_other {ℓ} :
    {V : Type ℓ} (i k : String) (v : V) (d : Dict V)
    → (i =ₜ k) ≡ false
    → lookup i (insert k v d) ≡ lookup i d
lookup-insert_other i k v [] h = rw h refl
lookup-insert_other i k v ((j, w) ∷ d) h = elim (Bool-cases (k =ₜ j)) [
  | inl same ↦ rw (same, subst (λ x. (i =ₜ x) ≡ false) ((text_eq_iff k j).0 same) h) refl
  | inr other ↦ rw (other, lookup-insert_other i k v d h) refl
]

-- A collection is prepared for a window: it holds the window's two moments, and what the template
-- put under any other key.
pub Prepared : (Moment → String) → Dict Value → Moment → Dict Value → Type 0
Prepared instant collection received prepared =
    ((w : Span) × (get "resolved_window" prepared ≡ window_value instant w) × Bounded received w)
    × ((key : String) → (key =ₜ "resolved_window") ≡ false → get key prepared ≡ get key collection)

insert-Prepared :
    (instant : Moment → String) (collection : Dict Value) (received : Moment) (w : Span)
    → Bounded received w
    → Prepared instant collection received
        (insert "resolved_window" (window_value instant w) collection)
unfolding Prepared
insert-Prepared instant collection received w h = (
  (w, rw (get, lookup-insert "resolved_window" (window_value instant w) collection) refl, h),
  λ key other.
      rw (get, lookup-insert_other key "resolved_window" (window_value instant w) collection other)
        refl,
)

-- If the hint keeps to the schema and the zone, where it is known, starts a month no earlier than the
-- one before it, then whatever `prepare_collection` returns has limits within the schema's bounds, of 1 to 20
-- iterations, 1 to 100 calls and 1 to 3600 seconds, and the template's collection with a window that
-- does not start after it ends and ends no later than the question arrived.
pub prepare_collection-Prepared :
    (rt : Runtime) (zone : Outcome Zone) (parse : String → Outcome ℤ) (instant : Moment → String)
    (template : ReportTemplate) (parsed : ParsedRequest) (request : RequestEnvelope)
    {result : Dict Value × InvestigationLimits}
    → ValidHint parsed.initial_window_hint
    → InOrder request.received_at zone
    → prepare_collection rt zone parse instant template parsed request ≡ ok result
    → Prepared instant template.collection request.received_at result.0 × Valid result.1
unfolding prepare_collection resolve_window
prepare_collection-Prepared rt zone parse instant template parsed request {result} v month =
    let P : Dict Value × InvestigationLimits → Type 0 =
      λ r. Prepared instant template.collection request.received_at r.0 × Valid r.1 in
    after P (resolve_window rt zone template.collection parsed request) _ (λ w a.
      after P (resolved_limits parse _ parsed) _ (λ limits b c. subst P (ok-injective _ result c) (
        insert-Prepared instant template.collection request.received_at w (
            range_window-Bounded zone (range_of rt template.collection) parsed request.received_at v
              month a),
        resolved_limits-Valid parse _ parsed b,
      )))
