-- ===== src/Nodes/Planner.antt =====
-- `ObservationPlannerNode` and `_observation_call` of graph/live_nodes.py.
use aiops_rca_orchestrator.Common.{
  ℕ, suc, ◌-◌, Bool, true, false, ◌&&◌, ◌⊎◌, inl, inr, Option, none, some, String, List, [], ◌∷◌,
  ◌++◌, map, leb, if◌then◌else◌, length, is_empty, keep,
}
use aiops_rca_orchestrator.Common.Text.{◌<>◌, join, decimal, contains}
use aiops_rca_orchestrator.Common.Dict.{Dict, insert}
use aiops_rca_orchestrator.Common.Value.{Value, dict, entries, Runtime}
use aiops_rca_orchestrator.Common.Outcome.{Outcome, ok, raised, ◌>>=◌}
use aiops_rca_orchestrator.Schema.Investigation.{ResolvedHost, ObservationQuestion, UnknownItem}
use aiops_rca_orchestrator.Schema.Decisions.{
  HypothesisExpectation, PlannedObservation, ObservationDecision,
}
use aiops_rca_orchestrator.Registry.{ToolKind, generic, ToolPolicy, ToolRegistry, get_policy}
use aiops_rca_orchestrator.State.{InvestigationState, is_set}
use aiops_rca_orchestrator.Nodes.World.{
  World, visit, note, text_or, exception_text, resolved_window,
}

abbrev generic_kind : ToolKind → Bool
generic_kind generic = true
generic_kind _ = false

abbrev generic_policy : Outcome ToolPolicy → Bool
generic_policy (ok policy) = generic_kind policy.kind
generic_policy (raised e) = false

-- `_is_generic`
unfoldable pub is_generic : ToolRegistry → String → Bool
unfolding get_policy
is_generic registry tool_name = generic_policy (get_policy registry tool_name)

single_host : List ResolvedHost → Option String
single_host (host ∷ []) = some host.host
single_host _ = none

-- The host a proposal is about: its own, or the only one there is.
associated : InvestigationState → Option String → Option String
unfolding single_host
associated state (some host) = some host
associated state none = single_host state.hosts

abbrev decoded : Outcome Value → Dict Value ⊎ String
decoded (ok (dict arguments)) = inl (entries arguments)
decoded (ok _) = inr "arguments_json decoded to something other than an object"
decoded (raised e) = inr ("arguments_json is not valid JSON (" <> (exception_text e <> ")"))

known_host :
    Runtime → List String → Option String → Dict Value → (Dict Value × Option String) ⊎ String
known_host rt known none arguments = inl (arguments, none)
known_host rt known (some host) arguments =
    if contains known host
    then inl (arguments, some host)
    else inr ("host " <> (rt.repr host <> " was not resolved by this investigation"))

-- `_observation_call`: the arguments and the host, or the reason of the `_CandidateRejected`.
unfoldable pub observation_call :
    Runtime → InvestigationState → PlannedObservation → (Dict Value × Option String) ⊎ String
unfolding associated known_host
observation_call rt state proposal = elim (decoded (rt.loads proposal.arguments_json)) [
  | inl arguments ↦
      known_host rt (map (λ h. h.host) state.hosts) (associated state proposal.host) arguments
  | inr reason ↦ inr reason
]

-- The predictions about known hypotheses, by hypothesis.
abbrev predictions : List String → List HypothesisExpectation → Dict String → Dict String
predictions known [] d = d
predictions known (e ∷ es) d =
    predictions known es
      (if contains known e.hypothesis_id then insert e.hypothesis_id e.prediction d else d)

-- The variables of the loop.
pub record Planning : Type 0 where
  pub questions : List ObservationQuestion
  pub unknowns : List UnknownItem

abbrev pub known_hypotheses : InvestigationState → List String
known_hypotheses state = map (λ h. h.id) state.hypotheses

abbrev pub anchors : InvestigationState → PlannedObservation → List String
anchors state proposal =
    keep (contains (known_hypotheses state)) proposal.discriminates_hypothesis_ids

unfoldable pub question_of :
    ToolRegistry
    → InvestigationState
    → PlannedObservation
    → Dict Value
    → Option String
    → ObservationQuestion
unfolding is_generic
question_of registry state proposal arguments host = record {
  question = proposal.question;
  discriminates_hypothesis_ids = anchors state proposal;
  expected_if_true = predictions (known_hypotheses state) proposal.expected_if_true [];
  expected_if_false = predictions (known_hypotheses state) proposal.expected_if_false [];
  temporal_scope = proposal.temporal_scope;
  required_tool = some proposal.required_tool;
  arguments = arguments;
  host = host;
  generic_fallback_allowed =
      proposal.generic_fallback_allowed && is_generic registry proposal.required_tool;
}

-- A proposal that fits the budget: a question, or a note on why it is none.
unfoldable pub consider :
    World → InvestigationState → PlannedObservation → Planning → Outcome Planning
unfolding observation_call question_of join
consider w state proposal p =
    if is_empty (anchors state proposal)
    then (note "observation_unanchored"
          (proposal.required_tool
            <> (": named hypotheses that do not exist: "
                <> join ", " proposal.discriminates_hypothesis_ids))
          none p.unknowns
        >>= λ unknowns. ok (record p { unknowns = unknowns }))
    else elim (observation_call w.rt state proposal) [
      | inl (arguments, host) ↦ ok (record p {
        questions = p.questions ++ question_of w.registry state proposal arguments host ∷ [];
      })
      | inr reason ↦
          note "candidate_unusable" (proposal.required_tool <> (": " <> reason)) none p.unknowns
          >>= λ unknowns. ok (record p { unknowns = unknowns })
    ]

-- `limits.max_tool_calls - tool_call_count`, as it is written in a message.
remaining_text : InvestigationState → String
remaining_text state =
    if leb state.tool_call_count state.limits.max_tool_calls
    then decimal (state.limits.max_tool_calls - state.tool_call_count)
    else "-" <> decimal (state.tool_call_count - state.limits.max_tool_calls)

unfoldable pub exhausted : InvestigationState → ℕ → Planning → Outcome Planning
unfolding remaining_text
exhausted state total p =
    note "observation_budget_exhausted"
      ("The tool-call budget held "
        <> (remaining_text state
            <> (" of the " <> (decimal total <> " observations planned for this turn."))))
      none p.unknowns
    >>= λ unknowns. ok (record p { unknowns = unknowns })

-- The loop over the proposals, of which there are `total`.
unfoldable pub plan_questions :
    World → InvestigationState → ℕ → List PlannedObservation → Planning → Outcome Planning
unfolding consider exhausted
plan_questions w state total [] p = ok p
plan_questions w state total (proposal ∷ proposals) p =
    if leb (state.limits.max_tool_calls - state.tool_call_count) (length p.questions)
    then exhausted state total p
    else (consider w state proposal p >>= λ next. plan_questions w state total proposals next)

-- What the node returns with the questions of the turn.
unfoldable pub planned_state : InvestigationState → Planning → InvestigationState
planned_state state p =
    if is_empty p.questions
    then record state {
      next_questions = [];
      planned_tool_calls = [];
      stop_reason = some "no proposed observation could be used";
      unknowns = p.unknowns;
      iteration_count = suc state.iteration_count;
    }
    else record state {
      next_questions = p.questions;
      planned_tool_calls = [];
      unknowns = p.unknowns;
      iteration_count = suc state.iteration_count;
    }

abbrev pub nothing_planned : InvestigationState → ObservationDecision → InvestigationState
nothing_planned state decision = record state {
  next_questions = [];
  planned_tool_calls = [];
  stop_reason = some (text_or decision.stop_reason "no discriminating observation remains");
  iteration_count = suc state.iteration_count;
}

unfoldable pub plan_turn :
    World → InvestigationState → ObservationDecision → Outcome InvestigationState
unfolding plan_questions planned_state resolved_window
plan_turn w state decision = do
  window ← resolved_window state
  if is_empty decision.observations
      then ok (nothing_planned state decision)
      else (plan_questions w state (length decision.observations) decision.observations
            (record { questions = []; unknowns = state.unknowns })
          >>= λ p. ok (planned_state state p))

-- `ObservationPlannerNode.__call__`, with what the model decided.
unfoldable pub observation_planner :
    World → ObservationDecision → InvestigationState → Outcome InvestigationState
unfolding plan_turn is_set
observation_planner w decision state =
    if is_set state.stop_reason
    then ok (visit "observation_planner" state)
    else (plan_turn w state decision >>= λ next. ok (visit "observation_planner" next))
