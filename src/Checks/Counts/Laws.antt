-- ===== src/Checks/Counts/Laws.antt =====
-- The length of each list that the evidence carries is one of its counts, however deep it lies.
use aiops_rca_orchestrator.Common.{
  ℕ, ◌≡◌, refl, subst, true, ◌||◌, Option, some, String, List, [], ◌∷◌, ◌++◌, arith,
}
use aiops_rca_orchestrator.Common.Value.{Value, list, dict, Items, cons, Fields, field, ℤ, pos}
use aiops_rca_orchestrator.Common.Outcome.{Outcome, ok, ◌>>=◌, after, ok-injective}
use aiops_rca_orchestrator.Checks.Documents.{Reader}
use aiops_rca_orchestrator.Checks.Counts.{
  Quantity, same_number, holds, item_count, own_quantities, counted_quantities, counted_items,
  counted_fields,
}

mutual
  -- A list of this length lies in the value, at any depth.
  pub data Lies : ℕ → Value → Type 0 where
    here : (vs : Items) → Lies (item_count vs) (list vs)
    in_list : {n : ℕ} (vs : Items) → LiesAmong n vs → Lies n (list vs)
    in_dict : {n : ℕ} (fs : Fields) → LiesUnder n fs → Lies n (dict fs)

  pub data LiesAmong : ℕ → Items → Type 0 where
    first : {n : ℕ} (v : Value) (vs : Items) → Lies n v → LiesAmong n (cons v vs)
    later : {n : ℕ} (v : Value) (vs : Items) → LiesAmong n vs → LiesAmong n (cons v vs)

  pub data LiesUnder : ℕ → Fields → Type 0 where
    first_field :
        {n : ℕ} (k : String) (v : Value) (fs : Fields) → Lies n v → LiesUnder n (field k v fs)
    later_field :
        {n : ℕ} (k : String) (v : Value) (fs : Fields) → LiesUnder n fs → LiesUnder n (field k v fs)

same_number_refl : (n : ℕ) → same_number (pos n) (pos n) ≡ true
same_number_refl n = ground arith

pub holds-append : (xs ys : List Quantity) (n : ℤ) → holds (xs ++ ys) n ≡ (holds xs n || holds ys n)
holds-append [] ys n = refl
holds-append (x ∷ xs) ys n = ground (arith, holds-append xs ys n)

holds-left : (xs ys : List Quantity) (n : ℤ) → holds xs n ≡ true → holds (xs ++ ys) n ≡ true
holds-left xs ys n h = ground (arith, holds-append xs ys n)

holds-right : (xs ys : List Quantity) (n : ℤ) → holds ys n ≡ true → holds (xs ++ ys) n ≡ true
holds-right xs ys n h = ground (arith, holds-append xs ys n)

abbrev Counts : ℕ → List Quantity → Type 0
Counts n qs = holds qs (pos n) ≡ true

-- What the first of two steps counts is counted by both, and likewise the second.
Counts-first :
    (n : ℕ) (m k : Outcome (List Quantity)) {qs : List Quantity}
    → ((ps : List Quantity) → m ≡ ok ps → Counts n ps)
    → (m >>= λ a. k >>= λ b. ok (a ++ b)) ≡ ok qs
    → Counts n qs
Counts-first n m k {qs} f = after (Counts n) m _ (λ a e.
    after (Counts n) k _
      (λ b e2 h. subst (Counts n) (ok-injective (a ++ b) qs h) (holds-left a b (pos n) (f a e))))

Counts-second :
    (n : ℕ) (m k : Outcome (List Quantity)) {qs : List Quantity}
    → ((ps : List Quantity) → k ≡ ok ps → Counts n ps)
    → (m >>= λ a. k >>= λ b. ok (a ++ b)) ≡ ok qs
    → Counts n qs
Counts-second n m k {qs} f = after (Counts n) m _ (λ a e.
    after (Counts n) k _
      (λ b e2 h. subst (Counts n) (ok-injective (a ++ b) qs h) (holds-right a b (pos n) (f b e2))))

mutual
  unfolding counted_quantities

  value-counted :
      (r : Reader) (name : Option String) (n : ℕ) (v : Value) (qs : List Quantity)
      → Lies n v
      → counted_quantities r name v ≡ ok qs
      → Counts n qs
  value-counted r name n v qs (here vs) =
      after (Counts n) (counted_items r name vs) _ (λ nested e h.
        subst (Counts n) (ok-injective _ qs h) (ground (arith, same_number_refl (item_count vs))))
  value-counted r name n v qs (in_list vs inside) =
      after (Counts n) (counted_items r name vs) _ (λ nested e h.
        subst (Counts n) (ok-injective _ qs h)
          (ground (arith, items-counted r name n vs nested inside e)))
  value-counted r name n v qs (in_dict fs inside) =
      after (Counts n) (counted_fields r fs) _ (λ nested e h.
        subst (Counts n) (ok-injective _ qs h) (
          holds-right (own_quantities name fs) nested (pos n)
            (fields-counted r n fs nested inside e)))

  items-counted :
      (r : Reader) (name : Option String) (n : ℕ) (vs : Items) (qs : List Quantity)
      → LiesAmong n vs
      → counted_items r name vs ≡ ok qs
      → Counts n qs
  items-counted r name n vs qs (first v ws inside) =
      Counts-first n (counted_quantities r name v) (counted_items r name ws)
        (λ ps e. value-counted r name n v ps inside e)
  items-counted r name n vs qs (later v ws inside) =
      Counts-second n (counted_quantities r name v) (counted_items r name ws)
        (λ ps e. items-counted r name n ws ps inside e)

  fields-counted :
      (r : Reader) (n : ℕ) (fs : Fields) (qs : List Quantity)
      → LiesUnder n fs
      → counted_fields r fs ≡ ok qs
      → Counts n qs
  fields-counted r n fs qs (first_field k v gs inside) =
      Counts-first n (counted_quantities r (some k) v) (counted_fields r gs)
        (λ ps e. value-counted r (some k) n v ps inside e)
  fields-counted r n fs qs (later_field k v gs inside) =
      Counts-second n (counted_quantities r (some k) v) (counted_fields r gs)
        (λ ps e. fields-counted r n gs ps inside e)

-- The length of a list that lies anywhere in a value is one of the numbers counted in the value,
-- under whatever field it is read, wherever the counting returns.
pub counted_quantities-Lies :
    (r : Reader) (name : Option String) (n : ℕ) (v : Value) {qs : List Quantity}
    → Lies n v
    → counted_quantities r name v ≡ ok qs
    → holds qs (pos n) ≡ true
counted_quantities-Lies r name n v {qs} inside h = value-counted r name n v qs inside h
