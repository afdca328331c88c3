-- ===== src/Service/Run/Begin.antt =====
-- The state in which the graph starts is one from which every run of the graph ends.
use aiops_rca_orchestrator.Common.{ℕ, ◌+◌, ◌*◌, ◌≡◌, refl, subst, none, arith}
use aiops_rca_orchestrator.Common.Outcome.{ok, after}
use aiops_rca_orchestrator.Schema.Investigation.{ParsedRequest}
use aiops_rca_orchestrator.State.{InvestigationState, bound_what_only_grows}
use aiops_rca_orchestrator.Graph.{Answers, resolve_hosts, drive}
use aiops_rca_orchestrator.Graph.Budget.{rebuild-eq, trimmed-Keeps}
use aiops_rca_orchestrator.Graph.Bound.{Fresh, drive-ends}
use aiops_rca_orchestrator.Templates.Select.{Selected}
use aiops_rca_orchestrator.Templates.Limits.{prepare_collection}
use aiops_rca_orchestrator.Templates.Limits.Laws.{Valid, prepare_collection-Valid}
use aiops_rca_orchestrator.Service.Catalog.{load_tool_catalog}
use aiops_rca_orchestrator.Service.Analyze.{InvestigationApiRequest}
use aiops_rca_orchestrator.Service.Run.Start.{Service, first_state, start}

-- A state to start in: fresh, and with limits within the schema's bounds.
pub Startable : InvestigationState → Type 0
Startable s = Fresh s × Valid s.limits

bound-Startable : (s : InvestigationState) → Startable s → Startable (bound_what_only_grows s)
unfolding Startable Valid
bound-Startable s h = ground (arith, trimmed-Keeps s)

-- Whenever `investigate` gets as far as the graph, it starts it in a state with no iteration counted,
-- no refused routing and no question, and with limits of 1 to 20 iterations, 1 to 100 calls and 1 to
-- 3600 seconds.
pub start-Startable :
    (svc : Service) (api : InvestigationApiRequest) (parsed : ParsedRequest) (choice : Selected)
    {s : InvestigationState}
    → start svc api parsed choice ≡ ok s
    → Startable s
unfolding start first_state Startable
start-Startable svc api parsed choice {s} =
    after Startable
      (prepare_collection svc.rt (svc.zone parsed.timezone) svc.parse svc.instant choice.0 parsed
        api.request)
      _
      (λ prepared a.
        after Startable (load_tool_catalog svc.rt svc.registry svc.listing) _ (λ catalog b c.
          subst Startable
            (rebuild-eq (first_state svc api parsed choice prepared.0 prepared.1 catalog) c)
            (bound-Startable (first_state svc api parsed choice prepared.0 prepared.1 catalog) (
              (refl, refl, refl),
              prepare_collection-Valid svc.rt (svc.zone parsed.timezone) svc.parse svc.instant
                  choice.0 parsed api.request a,
            ))))

-- Under a limit of 10 + 6 * max_iterations visits, the graph that `investigate` starts comes to its
-- end or raises, whatever the request, the template, the model, the tools and the clock.
pub start-ends :
    (svc : Service) (api : InvestigationApiRequest) (parsed : ParsedRequest) (choice : Selected)
    (s : InvestigationState) (answers : ℕ → Answers)
    → start svc api parsed choice ≡ ok s
    → ¬ (drive (10 + 6 * s.limits.max_iterations) answers resolve_hosts s ≡ ok none)
unfolding Startable Valid
start-ends svc api parsed choice s answers started =
    let ready = start-Startable svc api parsed choice started in
    drive-ends s answers ready.0 ready.1.0
