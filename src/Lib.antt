-- ===== src/Lib.antt =====
-- AIOps RCA orchestrator: the deterministic core of rca-api.
--
-- The service investigates an incident with a graph of nodes (rca-api/src/aiops_rca/graph). A state
-- is checkpointed between the nodes and built anew at each of them; a language model decides, and
-- deterministic code validates what it decided, calls the tools within limits, turns their replies
-- into evidence with ids, and packs the evidence for the report.
--
-- Parts, with paths below rca-api/src/aiops_rca:
--   Common      the interpreter's values, texts, dicts and exceptions, as far as the code uses them.
--               `Outcome` is a value or the exception raised in its place.
--   Sources     sources.py: the evidence sources and the pattern of evidence ids.
--   Schema      schemas/*.py, tools/result.py, services/model_contracts.py: records. A model whose
--               bounds a node can break has a function that validates it (`unknown_item`,
--               `planned_tool_call`, `result_fits`, `fields_fit`, `validate_package`), and so has the
--               analyzer's answer (`parsed_request_fits`).
--   Registry    tools/registry.py: Policy has the allowlist and `validate_call`, Window has
--               `apply_window_policy`, Default the tools. Proofs: Guards, Widening.
--   State       graph/state.py: Defs has the record, Trim `bound_what_only_grows`, Validity
--               `validate_graph_invariants` and `rebuild`, what pydantic does at every node.
--               Proofs: Ceiling.
--   Normalizer  tools/normalizer.py: Merge, Fields, Rows and Build. Proofs: Capacity, Ids.
--   Adapter     tools/adapters/base.py and tools/executor.py: Failures, Classify and Execute;
--               Wiring has the set of adapters. Proofs: Verdicts.
--   Nodes       graph/deterministic_nodes.py, graph/live_nodes.py and graph/report_nodes.py, one
--               module per node: Hosts, Phenomenon, Hypotheses, Planner, Router, Executor, Evidence,
--               Updater, Package, Writer. World has what they share. Proofs: Budgets, Questions,
--               Citations, References.
--   Graph       graph/routing.py and graph/builder.py: Routing has the hard stops and the conditions
--               of the edges, Topology the edges, `Run` (the complete runs) and `drive` (the graph
--               under a limit on visits). Proofs: Effects, Outputs, Drafts, Budget, Turn, Guard,
--               Bound.
--   Templates   services/templates.py and services/template_contract.py: Contract has the sections of
--               a template and `validate_template`, Select `select_template`, Window `resolve_window`
--               and `_window`, Limits `prepare_collection`. Proofs: each one's Laws.
--   Transport   tools/adapters/streamable_http.py: the attempts at a call, the reading of a result,
--               the loop over the pages of a list of tools. Proofs: Laws.
--   Checks      evals/properties.py: Documents reads the documents, Counts has
--               `_counted_quantities`, References, Claims, Omission and Limits the six checks, Suite
--               `check_report`. Dumped has the document of a report. Proofs: each one's Laws.
--   Service     services/investigation.py: Catalog (`_load_tool_catalog`), Examples
--               (`_without_examples`), Models (`model_for`, `_collector_models`), Analyze (the
--               analyzer's turn), Writer (`write_report`), Report (`_validate_report`,
--               `_reconcile_evidence`), Clarify (`_clarification_lines`), and Run: Start has the
--               state the graph starts in, Finish the graph's turn and the response, Run itself
--               `investigate`. Proofs: Laws, Report/Valid, Report/Events, Run/Begin,
--               Run/Reports, Run/Delivered.
--   Examples    the properties at concrete inputs.
--
-- What stands outside the repository is an argument. `Runtime` holds what the interpreter does with
-- text, JSON, hashes, timestamps and rounding; `EvidenceModel` what pydantic does with evidence;
-- `World.execute` the executor's calls, numbered, since two equal calls may answer differently;
-- `Answers` what one visit of a node gets from the language model, the tools, the clock and the
-- writer. No law is assumed of any of them.
--
-- The service's surroundings are the fields of `Service`: the model's answers, the servers' lists of
-- tools, time zones and the clock. The analyzer's answer is held to the type that the catalog gives
-- it. The checks read documents; what `re.findall` returns for their patterns is in `Reader`.
--
-- Moments are microseconds on the native numbers, from the first one a datetime holds. Numbers do
-- not wrap around: Python's are unbounded. Fuel is that of `drive`, the graph's limit on visits, and
-- that of `list_pages`, the pages that are read of a server that may have any number; the attempts
-- at a call are counted by the setting; the other loops run over lists and values.
--
-- Not modelled: the prompts and the wording of a report, the harness that evaluates reports against
-- live servers (evals/harness.py, evals/run.py, evals/log_store.py), the construction of clients
-- and of the executor (`build_live_service`, `InvestigationService.__init__` but for its wiring),
-- the sessions of the MCP client library, the HTTP API, the clients of the language model, tracing,
-- and the other programs of the repository (ingress, database, deployment). The report nodes take
-- the writer and the check as arguments, which `writer` of Service/Writer and `report_check` of
-- Checks/Suite are; the package's document, `model_dump` of pydantic, is an argument of the latter.
pub mod Common
pub mod Sources
pub mod Schema
pub mod Registry
pub mod State
pub mod Normalizer
pub mod Adapter
pub mod Nodes
pub mod Graph
pub mod Templates
pub mod Transport
pub mod Checks
pub mod Service
pub mod Examples
