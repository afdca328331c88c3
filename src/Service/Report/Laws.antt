-- ===== src/Service/Report/Laws.antt =====
-- What `_reconcile_evidence` adds keeps a valid report valid, and cites every event.
use aiops_rca_orchestrator.Common.{
  ℕ, ◌≡◌, refl, sym, ap, subst, ◌∙◌, Bool, true, false, ◌||◌, String, List, [], ◌∷◌, ◌++◌, map, any,
  all, take, ◌=ₜ◌, if◌then◌else◌, arith, inl, inr, Bool-cases,
}
use aiops_rca_orchestrator.Common.Text.{contains}
use aiops_rca_orchestrator.Common.Value.{Value}
use aiops_rca_orchestrator.Common.Laws.{
  text_eq_sym, contains-append, all-keep, all-map, all-take, all-contains_self,
}
use aiops_rca_orchestrator.Common.Outcome.{ok, required, after, ok-injective, traverse}
use aiops_rca_orchestrator.Schema.Report.{ReportSection, ReportItem}
use aiops_rca_orchestrator.Schema.Evidence.{Evidence}
use aiops_rca_orchestrator.State.Validity.{unique}
use aiops_rca_orchestrator.Service.Sections.{is_text, finds, hashed, hashed_id, id_of}
use aiops_rca_orchestrator.Service.Report.{
  item_refs, items_refs, references, package_ids, dropped_events, event_item, file_items,
}

items_refs-append :
    (xs ys : List ReportItem) (t : String)
    → contains (items_refs (xs ++ ys)) t
      ≡ (contains (items_refs xs) t || contains (items_refs ys) t)
items_refs-append [] ys t = refl
items_refs-append (x ∷ xs) ys t = ground (
  arith,
  items_refs-append xs ys t,
  contains-append (item_refs x) (items_refs (xs ++ ys)) t,
  contains-append (item_refs x) (items_refs xs) t,
)

-- Filing adds the references of what is filed, and no others.
pub references-file_items :
    (id t : String) (items : List ReportItem) (sections : List ReportSection)
    → contains (references (file_items id items sections)) t
      ≡ (contains (references sections) t || contains (items_refs items) t)
unfolding file_items
references-file_items id t items [] = ground (arith, contains-append (items_refs items) [] t)
references-file_items id t items (s ∷ sections) = elim (Bool-cases (s.id =ₜ id)) [
  | inl here ↦ ground (
    arith,
    items_refs-append s.items items t,
    contains-append (items_refs (s.items ++ items)) (references sections) t,
    contains-append (items_refs s.items) (references sections) t,
  )
  | inr further ↦ ground (
    arith,
    references-file_items id t items sections,
    contains-append (items_refs s.items) (references (file_items id items sections)) t,
    contains-append (items_refs s.items) (references sections) t,
  )
]

unfoldable pub ids : List ReportSection → List String
ids sections = map (λ s. s.id) sections

pub file_items-ids :
    (id : String) (items : List ReportItem) (sections : List ReportSection)
    → ids (file_items id items sections)
      ≡ (if contains (ids sections) id then ids sections else ids sections ++ id ∷ [])
unfolding file_items ids
file_items-ids id items [] = refl
file_items-ids id items (s ∷ sections) =
    let same = text_eq_sym s.id id in let rest = file_items-ids id items sections in ground arith

pub unique-snoc :
    (xs : List String) (x : String)
    → unique xs ≡ true
    → contains xs x ≡ false
    → unique (xs ++ x ∷ []) ≡ true
unfolding unique
unique-snoc [] x h k = refl
unique-snoc (y ∷ xs) x h k =
    let rest = unique-snoc xs x in
    let same = text_eq_sym x y in ground (arith, contains-append xs (x ∷ []) y)

-- An item that was made for an event cites it, and nothing else.
event_item-refs :
    (e : Evidence) (i : ReportItem) → event_item e ≡ ok i → item_refs i ≡ e.evidence_id ∷ []
unfolding event_item
event_item-refs e i h = ap item_refs (sym (ok-injective _ i (required _ _ _ h).1))

pub traverse-refs :
    (es : List Evidence) (is : List ReportItem)
    → traverse event_item es ≡ ok is
    → items_refs is ≡ package_ids es
traverse-refs [] is h = ap items_refs (sym (ok-injective [] is h))
traverse-refs (e ∷ es) is h =
    after (λ is. items_refs is ≡ package_ids (e ∷ es)) (event_item e) _
      (λ i made rest.
        after (λ is. items_refs is ≡ package_ids (e ∷ es)) (traverse event_item es) _
          (λ js others whole.
            subst (λ is. items_refs is ≡ package_ids (e ∷ es)) (ok-injective (i ∷ js) is whole)
              (λ k. event_item-refs e i made k ++ traverse-refs es js others k))
          rest)
      h

hashed-same : (v h : Value) → hashed v ≡ ok h → v ≡ h
unfolding hashed
hashed-same v h k = ground arith

-- The id of a member is the same for both readings of the member.
hashed_id-same : (v id h : Value) → id_of v ≡ ok id → hashed_id v ≡ ok h → id ≡ h
unfolding hashed_id
hashed_id-same v id h k = λ r.
    after (λ h. id ≡ h) (id_of v) _
      (λ i read kept. ok-injective id i (sym k ∙ read) ∙ hashed-same i h kept) r

pub or_later : (a b : Bool) → b ≡ true → (a || b) ≡ true
or_later a b h = ground arith

first_or_later :
    (t : String) (id first : Value) (others vs : List Value)
    → id ≡ first
    → (if is_text t id then ok true else finds t vs) ≡ ok true
    → traverse hashed_id vs ≡ ok others
    → (finds t vs ≡ ok true → traverse hashed_id vs ≡ ok others → any (is_text t) others ≡ true)
    → any (is_text t) (first ∷ others) ≡ true
first_or_later t id first others vs same found many later = elim (Bool-cases (is_text t id)) [
  | inl here ↦ subst (λ i. (is_text t i || any (is_text t) others) ≡ true) same (rw here refl)
  | inr further ↦
      or_later (is_text t first) (any (is_text t) others) (later (rw further at found) many)
]

pub finds-declared :
    (t : String) (vs declared : List Value)
    → finds t vs ≡ ok true
    → traverse hashed_id vs ≡ ok declared
    → any (is_text t) declared ≡ true
unfolding finds
finds-declared t [] declared h k = absurd (ground arith)
finds-declared t (v ∷ vs) declared h k =
    after (λ declared. any (is_text t) declared ≡ true) (hashed_id v) _
      (λ first one rest.
        after (λ declared. any (is_text t) declared ≡ true) (traverse hashed_id vs) _
          (λ others many whole.
            subst (λ declared. any (is_text t) declared ≡ true)
              (ok-injective (first ∷ others) declared whole)
              (after (λ _. any (is_text t) (first ∷ others) ≡ true) (id_of v) _
                (λ id read found.
                  let same = hashed_id-same v id first read one in
                  let later = finds-declared t vs others in
                  first_or_later t id first others vs same found many later)
                h))
          rest)
      k

-- The ids of dropped events are ids of the package.
pub dropped-known :
    (cited : List String) (evidence : List Evidence) (n : ℕ)
    → all (contains (package_ids evidence)) (package_ids (take n (dropped_events cited evidence)))
      ≡ true
unfolding dropped_events
dropped-known cited evidence n =
    let known = all-contains_self (package_ids evidence) in
    let each : all (λ e. contains (package_ids evidence) e.evidence_id) evidence ≡ true =
      sym (all-map (contains (package_ids evidence)) (λ e. e.evidence_id) evidence) ∙ known in
    all-map (contains (package_ids evidence)) (λ e. e.evidence_id)
      (take n (dropped_events cited evidence))
    ∙ all-take _ n _ (all-keep _ _ evidence each)
