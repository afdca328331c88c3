-- ===== src/Transport/Laws.antt =====
-- A call is tried until an attempt is decisive, and never more often than allowed; the pages of a
-- list of tools are read to the last.
use aiops_rca_orchestrator.Common.{
  ℕ, zero, suc, ◌+◌, ◌≤◌, ◌<◌, ◌≡◌, refl, sym, ap, subst, ◌∙◌, Bool, true, false, Option, none,
  some, String, List, [], ◌∷◌, ◌++◌, length, arith,
}
use aiops_rca_orchestrator.Common.Dict.{Dict}
use aiops_rca_orchestrator.Common.Value.{Value, Runtime}
use aiops_rca_orchestrator.Common.Outcome.{Outcome, Exception, ok, raised, ◌>>=◌}
use aiops_rca_orchestrator.Transport.{
  CallResult, read_result, Attempts, attempted, attempt_from, waited, is_remote, call_tool, Page,
  onward, paged, list_pages,
}

plus_zero : (n : ℕ) → n + 0 ≡ n
plus_zero n = omega arith

zero_plus : (n : ℕ) → n ≡ 0 + n
zero_plus n = omega arith

plus_suc : (n k : ℕ) → n + suc k ≡ suc n + k
plus_suc n k = omega arith

module _ {ℓ} {A : Type ℓ} (final : Exception → Bool) (once : ℕ → Outcome A) where
  -- The next `k` attempts all fail, with exceptions that are tried again.
  unfoldable pub Fails : (attempt k : ℕ) → Type ℓ
  Fails attempt zero = Unit
  Fails attempt (suc k) =
      ((e : Exception) × (once attempt ≡ raised e) × (final e ≡ false)) × Fails (suc attempt) k

  -- An answer, or an exception that is not tried again.
  unfoldable pub Decides : Outcome A → Type 0
  Decides (ok a) = Unit
  Decides (raised e) = final e ≡ true

  attempted-Decides :
      (attempt left : ℕ) (rest : Exception → Attempts A) (o : Outcome A)
      → Decides o
      → attempted final attempt left rest o ≡ (o, [])
  unfolding Decides
  attempted-Decides attempt left rest (ok a) d = refl
  attempted-Decides attempt left rest (raised e) d = rw d refl

  attempted-again :
      (attempt left : ℕ) (rest : Exception → Attempts A) (e : Exception)
      → final e ≡ false
      → attempted final attempt left rest (raised e) ≡ ((rest e).0, waited attempt left (rest e).1)
  attempted-again attempt left rest e f = rw f refl

  -- An attempt, from what it returned.
  next_attempt :
      (attempt left : ℕ) (last : Option Exception) (o : Outcome A) (r : Attempts A)
      → once attempt ≡ o
      → attempted final attempt left (λ e. attempt_from final once (suc attempt) left (some e)) o
        ≡ r
      → attempt_from final once attempt (suc left) last ≡ r
  unfolding attempt_from
  next_attempt attempt left last o r h k =
      ap (attempted final attempt left (λ e. attempt_from final once (suc attempt) left (some e))) h
      ∙ k

  length-waited :
      (attempt left : ℕ) (waits : List ℕ)
      → 1 ≤ left
      → length (waited attempt left waits) ≡ suc (length waits)
  length-waited attempt zero waits h = absurd (omega arith)
  length-waited attempt (suc left) waits h = refl

  attempt_from-Decides :
      (k attempt left : ℕ) (last : Option Exception) (o : Outcome A)
      → Fails attempt k
      → once (attempt + k) ≡ o
      → Decides o
      → k < left
      → ((attempt_from final once attempt left last).0 ≡ o)
        × (length (attempt_from final once attempt left last).1 ≡ k)
  unfolding Fails
  attempt_from-Decides k attempt zero last o f h d within = absurd (omega arith)
  attempt_from-Decides zero attempt (suc left) last o f h d within =
      let ran =
        next_attempt attempt left last o (o, []) (subst (λ n. once n ≡ o) (plus_zero attempt) h)
          (attempted-Decides attempt left _ o d) in
      (ap (λ r. r.0) ran, ap (λ r. length r.1) ran)
  attempt_from-Decides (suc k) attempt (suc left) last o ((e, failed, again), f) h d within =
      let rest = attempt_from final once (suc attempt) left (some e) in
      let ran =
        next_attempt attempt left last (raised e) (rest.0, waited attempt left rest.1) failed
          (attempted-again attempt left (λ x. attempt_from final once (suc attempt) left (some x)) e
            again) in
      let later =
        attempt_from-Decides k (suc attempt) left (some e) o f
          (subst (λ n. once n ≡ o) (plus_suc attempt k) h) d (omega arith) in
      (
        ap (λ r. r.0) ran ∙ later.0,
        ap (λ r. length r.1) ran ∙ length-waited attempt left rest.1 (omega arith) ∙ ap suc later.1,
      )

  -- The attempts are used up by failures: the last of them is what is raised.
  attempt_from-Fails :
      (left attempt : ℕ) (last : Option Exception) (e : Exception)
      → Fails attempt (suc left)
      → once (attempt + left) ≡ raised e
      → ((attempt_from final once attempt (suc left) last).0 ≡ raised e)
        × (length (attempt_from final once attempt (suc left) last).1 ≡ left)
  unfolding Fails attempt_from
  attempt_from-Fails zero attempt last e ((e2, failed, again), f) h =
      let same = sym failed ∙ subst (λ n. once n ≡ raised e) (plus_zero attempt) h in
      let ran =
        next_attempt attempt zero last (raised e2) (raised e2, []) failed
          (attempted-again attempt zero (λ x. attempt_from final once (suc attempt) zero (some x))
            e2 again) in
      (ap (λ r. r.0) ran ∙ same, ap (λ r. length r.1) ran)
  attempt_from-Fails (suc left) attempt last e ((e2, failed, again), f) h =
      let rest = attempt_from final once (suc attempt) (suc left) (some e2) in
      let ran =
        next_attempt attempt (suc left) last (raised e2) (rest.0, waited attempt (suc left) rest.1)
          failed
          (attempted-again attempt (suc left)
            (λ x. attempt_from final once (suc attempt) (suc left) (some x)) e2 again) in
      let later =
        attempt_from-Fails left (suc attempt) (some e2) e f
          (subst (λ n. once n ≡ raised e) (plus_suc attempt left) h) in
      (ap (λ r. r.0) ran ∙ later.0, ap (λ r. length r.1) ran ∙ ap suc later.1)

-- One attempt at a call: the session, and the reading of its result.
abbrev pub one_call : Runtime → (ℕ → Outcome CallResult) → ℕ → Outcome Value
one_call rt session k = session k >>= λ result. read_result rt result

-- If the first k attempts at a call fail with errors that are not the server's own, and the next one,
-- within the attempts allowed, returns a value or the server's own error, then that is what the call
-- comes to, after exactly k waits: a passing failure is survived, and a tool's error is not retried.
pub call_tool-Decides :
    (rt : Runtime) (retry_attempts k : ℕ) (session : ℕ → Outcome CallResult) (o : Outcome Value)
    → Fails is_remote (one_call rt session) 0 k
    → one_call rt session k ≡ o
    → Decides is_remote (one_call rt session) o
    → k < retry_attempts
    → ((call_tool rt retry_attempts session).0 ≡ o)
      × (length (call_tool rt retry_attempts session).1 ≡ k)
unfolding call_tool
call_tool-Decides rt retry_attempts k session o f h d within =
    attempt_from-Decides is_remote (one_call rt session) k 0 retry_attempts none o f
      (subst (λ n. one_call rt session n ≡ o) (zero_plus k) h) d within

-- If every attempt that is allowed fails with an error that is not the server's own, then the call
-- raises the error of the last attempt, after one wait fewer than attempts.
pub call_tool-Fails :
    (rt : Runtime) (left : ℕ) (session : ℕ → Outcome CallResult) (e : Exception)
    → Fails is_remote (one_call rt session) 0 (suc left)
    → one_call rt session left ≡ raised e
    → ((call_tool rt (suc left) session).0 ≡ raised e)
      × (length (call_tool rt (suc left) session).1 ≡ left)
unfolding call_tool
call_tool-Fails rt left session e f h =
    attempt_from-Fails is_remote (one_call rt session) left 0 none e f
      (subst (λ n. one_call rt session n ≡ raised e) (zero_plus left) h)

-- `Chain page cursor n tools`: from the cursor on, the server has `n` more pages, with these tools.
pub data Chain (page : Option String → Outcome Page)
    : Option String → ℕ → List (Dict Value) → Type 0 where
  last_page :
      (cursor : Option String) (p : Page)
      → page cursor ≡ ok p
      → onward p.next_cursor ≡ none
      → Chain page cursor 1 p.tools
  more_pages :
      {n : ℕ} {tools : List (Dict Value)} (cursor : Option String) (p : Page) (next : String)
      → page cursor ≡ ok p
      → onward p.next_cursor ≡ some next
      → Chain page (some next) n tools
      → Chain page cursor (suc n) (p.tools ++ tools)

no_pages :
    (page : Option String → Outcome Page) (n : ℕ) (cursor : Option String)
    (tools : List (Dict Value))
    → Chain page cursor n tools
    → ¬ (n ≤ 0)
no_pages page n cursor tools (last_page c p returned end_of) h = omega arith
no_pages page n cursor tools (more_pages c p next returned on rest) h = omega arith

next_page :
    (page : Option String → Outcome Page) (fuel : ℕ) (cursor : Option String)
    (found : List (Dict Value)) (p : Page) (o : Outcome (Option (List (Dict Value))))
    → page cursor ≡ ok p
    → paged
        (found ++ p.tools)
        (λ next. list_pages fuel page (some next) (found ++ p.tools))
        (onward p.next_cursor)
      ≡ o
    → list_pages (suc fuel) page cursor found ≡ o
unfolding list_pages
next_page page fuel cursor found p o h k = rw h k

append_assoc {ℓ} : {A : Type ℓ} (xs ys zs : List A) → (xs ++ ys) ++ zs ≡ xs ++ (ys ++ zs)
append_assoc [] ys zs = refl
append_assoc (x ∷ xs) ys zs = ap (λ r. x ∷ r) (append_assoc xs ys zs)

-- If the server's cursors come to an end after n pages that it returns, then the loop, run for at
-- least n pages, ends and returns the tools of all of them, in order, behind those it had.
pub list_pages-Chain :
    (page : Option String → Outcome Page) (fuel n : ℕ) (cursor : Option String)
    (found tools : List (Dict Value))
    → Chain page cursor n tools
    → n ≤ fuel
    → list_pages fuel page cursor found ≡ ok (some (found ++ tools))
unfolding list_pages
list_pages-Chain page zero n cursor found tools chain enough =
    absurd (no_pages page n cursor tools chain enough)
list_pages-Chain page (suc fuel) n cursor found tools (last_page c p returned end_of) enough =
    next_page page fuel cursor found p _ returned (rw end_of refl)
list_pages-Chain page (suc fuel) n cursor found tools (more_pages c p next returned on rest)
      enough =
    next_page page fuel cursor found p _ returned (
      rw on (
        list_pages-Chain page fuel _ (some next) (found ++ p.tools) _ rest (omega arith)
        ∙ ap (λ ts. ok (some ts)) (append_assoc found p.tools _)))
