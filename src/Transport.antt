-- ===== src/Transport.antt =====
-- tools/adapters/streamable_http.py: the attempts at a call of a server, and the reading of what it
-- answers. The session itself, one call or one page of it, is an argument.
pub mod Laws
use aiops_rca_orchestrator.Common.{
  ℕ, zero, suc, Bool, true, false, Option, none, some, String, List, [], ◌∷◌, ◌++◌, ◌=ₜ◌,
  if◌then◌else◌,
}
use aiops_rca_orchestrator.Common.Dict.{Dict}
use aiops_rca_orchestrator.Common.Text.{join}
use aiops_rca_orchestrator.Common.Value.{Value, null, str, Runtime}
use aiops_rca_orchestrator.Common.Outcome.{
  Outcome, Exception, ok, raised, value_error, failure, plain, ◌>>=◌,
}

-- A block of content; only `TextContent` is read.
pub data Block : Type 0 where
  text_content : String → Block
  other_content : Block

pub record CallResult : Type 0 where
  pub is_error : Bool
  pub structured_content : Option Value
  pub content : List Block

abbrev block_texts : List Block → List String
block_texts [] = []
block_texts (text_content s ∷ blocks) = s ∷ block_texts blocks
block_texts (other_content ∷ blocks) = block_texts blocks

-- `_content_text(content)`
unfoldable pub content_text : Runtime → List Block → String
unfolding join
content_text rt blocks = rt.strip (join "\n" (block_texts blocks))

abbrev pub remote_tool_error : String → Exception
remote_tool_error text = failure (plain "McpRemoteToolError" text)

-- `json.loads(text)`, and the text where it is no JSON: a `JSONDecodeError` is a `ValueError`.
abbrev loaded : String → Outcome Value → Outcome Value
loaded text (ok v) = ok v
loaded text (raised (value_error e)) = ok (str text)
loaded text (raised e) = raised e

abbrev read_text : Runtime → String → Outcome Value
read_text rt text = if text =ₜ "" then ok null else loaded text (rt.loads text)

abbrev read_content : Runtime → List Block → Option Value → Outcome Value
read_content rt blocks none = read_text rt (content_text rt blocks)
read_content rt blocks (some v) = ok v

-- What `_call_once` makes of the server's result.
unfoldable pub read_result : Runtime → CallResult → Outcome Value
unfolding content_text
read_result rt result =
    if result.is_error
    then raised (
        remote_tool_error (
          if content_text rt result.content =ₜ ""
          then "MCP tool failed"
          else content_text rt result.content))
    else read_content rt result.content result.structured_content

-- The result, and the waits before the second and each later attempt, in quarters of a second.
abbrev pub Attempts {ℓ} : Type ℓ → Type ℓ
Attempts A = Outcome A × List ℕ

abbrev pub exhausted {ℓ} : {A : Type ℓ} → Option Exception → Outcome A
exhausted none = raised (failure (plain "AssertionError" ""))
exhausted (some e) = raised e

abbrev pub waited : (attempt left : ℕ) → List ℕ → List ℕ
waited attempt zero waits = waits
waited attempt (suc left) waits = suc attempt ∷ waits

-- What an attempt leads to; `rest` is the attempts that an exception leaves.
abbrev pub attempted {ℓ} :
    {A : Type ℓ}
    → (final : Exception → Bool) → (attempt left : ℕ) → (rest : Exception → Attempts A) → Outcome A
    → Attempts A
attempted final attempt left rest (ok a) = (ok a, [])
attempted final attempt left rest (raised e) =
    if final e then (raised e, []) else ((rest e).0, waited attempt left (rest e).1)

-- The loop over the attempts from `attempt` on, with `left` of them left. An exception that is final
-- is not tried again.
unfoldable pub attempt_from {ℓ} :
    {A : Type ℓ}
    → (final : Exception → Bool) → (once : ℕ → Outcome A) → (attempt left : ℕ) → Option Exception
    → Attempts A
attempt_from final once attempt zero last = (exhausted last, [])
attempt_from final once attempt (suc left) last =
    attempted final attempt left (λ e. attempt_from final once (suc attempt) left (some e))
      (once attempt)

-- `except McpRemoteToolError: raise`
unfoldable pub is_remote : Exception → Bool
is_remote (failure (plain class_name text)) = class_name =ₜ "McpRemoteToolError"
is_remote _ = false

-- `call_tool(...)`; `session k` is what the session of attempt k returns.
unfoldable pub call_tool :
    Runtime → (retry_attempts : ℕ) → (ℕ → Outcome CallResult) → Attempts Value
unfolding attempt_from is_remote read_result
call_tool rt retry_attempts session =
    attempt_from is_remote (λ k. session k >>= λ result. read_result rt result) 0 retry_attempts
      none

-- A page of the tools of a server.
pub record Page : Type 0 where
  pub tools : List (Dict Value)
  pub next_cursor : Option String

abbrev pub onward : Option String → Option String
onward none = none
onward (some cursor) = if cursor =ₜ "" then none else some cursor

-- The tools so far are all there are, or the loop goes on from the next cursor.
abbrev pub paged :
    List (Dict Value)
    → (String → Outcome (Option (List (Dict Value))))
    → Option String
    → Outcome (Option (List (Dict Value)))
paged tools rest none = ok (some tools)
paged tools rest (some next) = rest next

-- The loop of `_list_once`, for at most `fuel` pages; `none` says that they were used up.
unfoldable pub list_pages :
    (fuel : ℕ)
    → (Option String → Outcome Page)
    → (cursor : Option String) → List (Dict Value)
    → Outcome (Option (List (Dict Value)))
list_pages zero page cursor tools = ok none
list_pages (suc fuel) page cursor tools = page cursor >>= λ p.
    paged (tools ++ p.tools) (λ next. list_pages fuel page (some next) (tools ++ p.tools))
      (onward p.next_cursor)

-- `list_tools()`: here no exception is final.
unfoldable pub list_tools :
    (retry_attempts fuel : ℕ)
    → (ℕ → Option String → Outcome Page)
    → Attempts (Option (List (Dict Value)))
unfolding attempt_from list_pages
list_tools retry_attempts fuel page =
    attempt_from (λ e. false) (λ k. list_pages fuel (page k) none []) 0 retry_attempts none
