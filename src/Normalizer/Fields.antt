-- ===== src/Normalizer/Fields.antt =====
-- The field helpers of tools/normalizer.py.
use aiops_rca_orchestrator.Common.{
  ℕ, suc, ◌-◌, ◌*◌, Bool, true, false, ◌&&◌, Option, none, some, String, [], ◌∷◌, leb, ltb,
  if◌then◌else◌,
}
use Prim.Native.Nat.{◌^◌}
use aiops_rca_orchestrator.Common.Text.{◌<>◌, text_length, text_take, decimal, contains}
use aiops_rca_orchestrator.Common.Dict.{Dict, insert}
use aiops_rca_orchestrator.Common.Value.{
  ℤ, pos, negsuc, Value, null, real, str, list, dict, entries, fields, get, or_else, truthy, to_str,
  Runtime,
}
use aiops_rca_orchestrator.Common.Outcome.{
  Outcome, ok, raised, require, value_error, type_error, ◌>>◌, ◌>>=◌,
}
use aiops_rca_orchestrator.Sources.{matches_evidence_id}
use aiops_rca_orchestrator.Schema.Evidence.{EvidenceWindow, ResourceIds, MetricSummary}

-- The entries of a mapping, and none of any other value.
abbrev pub mapping : Value → Dict Value
mapping (dict d) = entries d
mapping _ = []

abbrev pub optional_value : Option String → Value
optional_value none = null
optional_value (some s) = str s

-- `f"{text}"` of a text or `None`.
abbrev pub optional_text : Option String → String
optional_text none = "None"
optional_text (some s) = s

abbrev pub summary_capacity : ℕ
summary_capacity = 3000

unfoldable pub summary_notice : ℕ → String
summary_notice n = " …[요약 잘림: 전체 " <> (decimal n <> "자]")

-- `_bounded`
unfoldable pub bounded : String → String
unfolding summary_notice text_length text_take
bounded text =
    if leb (text_length text) summary_capacity
    then text
    else text_take (summary_capacity - text_length (summary_notice (text_length text))) text
      <> summary_notice (text_length text)

-- `_window`
unfoldable pub window_of : Dict Value → Option EvidenceWindow
unfolding truthy
window_of response =
    let window = mapping (get "window" response) in
    if truthy (get "from" window) && truthy (get "to" window)
    then some (record {
      from = get "from" window;
      to = get "to" window;
      aggregation = or_else (get "aggregation" response) (get "aggregation" window);
    })
    else none

-- `_window_from_arguments`
unfoldable pub window_from_arguments : Dict Value → Option EvidenceWindow
unfolding truthy
window_from_arguments arguments =
    if truthy (get "time_from" arguments) && truthy (get "time_to" arguments)
    then some (record {
      from = get "time_from" arguments;
      to = get "time_to" arguments;
      aggregation = get "aggregation" arguments;
    })
    else none

host_id_fits : Runtime → Option String → Bool
host_id_fits rt none = true
host_id_fits rt (some host_id) = rt.is_digit host_id

-- `_resource_ids`
unfoldable pub resource_ids :
    Runtime → Option String → (event_id trigger_id item_id : Option String) → Outcome ResourceIds
unfolding host_id_fits
resource_ids rt host_id event_id trigger_id item_id = do
  require (host_id_fits rt host_id) (value_error "host_id must be a decimal string or None")
  ok (record { host_id = host_id; event_id = event_id; trigger_id = trigger_id; item_id = item_id })

is_null : Value → Bool
is_null null = true
is_null _ = false

-- `_digits`
unfoldable pub digits : Runtime → Value → Option String
unfolding to_str is_null
digits rt value =
    let text = if is_null value then "" else to_str rt value in
    if rt.is_digit text then some text else none

-- `_evidence_id`
unfoldable pub evidence_id : Value → String → String
unfolding matches_evidence_id
evidence_id (str offered) generated = if matches_evidence_id offered then offered else generated
evidence_id _ generated = generated

abbrev max_search_query_chars : ℕ
max_search_query_chars = 4000

query_text : Runtime → Dict Value → Value → Option String
unfolding is_null
query_text rt arguments (str query) = some query
query_text rt arguments _ =
    let body = get "query_body" arguments in if is_null body then none else some (rt.dumps body)

short_enough : Option String → Option String
unfolding text_length
short_enough none = none
short_enough (some query) =
    if ltb max_search_query_chars (text_length query) then none else some query

-- `_search_query`
unfoldable pub search_query : Runtime → Dict Value → Option String
unfolding query_text short_enough
search_query rt arguments = short_enough (query_text rt arguments (get "query" arguments))

magnitude : ℤ → ℕ
magnitude (pos n) = n
magnitude (negsuc n) = suc n

-- `abs(m · 2 ^ e) >= 10_000`
at_least_whole : ℤ → ℤ → Bool
unfolding magnitude
at_least_whole m (pos e) = leb 10000 (magnitude m * 2 ^ e)
at_least_whole m (negsuc e) = leb (10000 * 2 ^ suc e) (magnitude m)

-- `_rounded`. An integer rounds to itself.
unfoldable pub rounded : Runtime → Value → Value
unfolding at_least_whole
rounded rt (real m e) = if at_least_whole m e then rt.round_whole m e else rt.round_places m e
rounded rt v = v

-- `_metric`
unfoldable pub metric_of : Runtime → Dict Value → Dict Value → MetricSummary
unfolding rounded to_str truthy
metric_of rt item summary = record {
  name = to_str rt (or_else (get "name" item) (str "unnamed metric"));
  unit = get "unit" item;
  least = rounded rt (get "min" summary);
  most = rounded rt (get "max" summary);
  avg = rounded rt (get "avg" summary);
  first = rounded rt (get "first" summary);
  last = rounded rt (get "last" summary);
  change_percent = rounded rt (get "change_percent" summary);
  trend = or_else (get "trend" summary) (str "insufficient_data");
  key = get "key" item;
}

-- `_metric_text`
unfoldable pub metric_text : Runtime → MetricSummary → String
unfolding bounded to_str
metric_text rt m = bounded (
    m.name
    <> (": min="
        <> (to_str rt m.least
            <> (", max="
                <> (to_str rt m.most
                    <> (", avg="
                        <> (to_str rt m.avg
                            <> (", first="
                                <> (to_str rt m.first
                                    <> (", last="
                                        <> (to_str rt m.last
                                            <> (", change_percent="
                                                <> (to_str rt m.change_percent
                                                    <> (", trend="
                                                        <> to_str rt m.trend))))))))))))))

-- `source in _TAGGABLE_DATA_SOURCES`: a value without a hash raises.
taggable : Value → Outcome Bool
taggable (str s) = ok (contains ("history" ∷ "trends" ∷ "logs" ∷ []) s)
taggable (list vs) = raised (type_error "unhashable type: 'list'")
taggable (dict fs) = raised (type_error "unhashable type: 'dict'")
taggable _ = ok false

with_ratio : Runtime → Dict Value → Value → Value
with_ratio rt quality (real m e) =
    dict (fields (insert "coverage_ratio" (rt.round_places m e) quality))
with_ratio rt quality _ = dict (fields quality)

-- `_rounded_quality`
unfoldable pub rounded_quality : Runtime → Value → Outcome Value
unfolding taggable with_ratio
rounded_quality rt (dict quality) = taggable (get "data_source" (entries quality)) >>= λ tagged.
    ok (
      if tagged
      then with_ratio rt (entries quality) (get "coverage_ratio" (entries quality))
      else null)
rounded_quality rt _ = ok null
