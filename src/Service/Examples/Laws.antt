-- ===== src/Service/Examples/Laws.antt =====
-- No example is left in a schema, and what any other path leads to is still there.
use aiops_rca_orchestrator.Common.{
  ℕ, zero, suc, ◌≡◌, refl, ap, subst, ◌∙◌, Bool, true, false, not, ◌&&◌, Option, none, some, String,
  List, [], ◌∷◌, ◌=ₜ◌, inl, inr, Bool-cases, text_eq_iff, arith,
}
use aiops_rca_orchestrator.Common.Dict.{lookup}
use aiops_rca_orchestrator.Common.Value.{
  Value, null, bool, int, real, str, list, dict, Items, nil, cons, Fields, end, field, items,
  entries,
}
use aiops_rca_orchestrator.Service.Examples.{
  is_example, without_examples, items_without, fields_without,
}

example_same : (k j : String) → (k =ₜ j) ≡ true → is_example k ≡ false → is_example j ≡ false
example_same k j same h = subst (λ t. is_example t ≡ false) ((text_eq_iff k j).0 same) h

-- No key of examples anywhere in the value.
unfoldable mutual
  pub free : Value → Bool
  free null = true
  free (bool b) = true
  free (int n) = true
  free (real m e) = true
  free (str s) = true
  free (list vs) = items_free vs
  free (dict fs) = fields_free fs

  pub items_free : Items → Bool
  items_free nil = true
  items_free (cons v vs) = free v && items_free vs

  pub fields_free : Fields → Bool
  fields_free end = true
  fields_free (field k v fs) = not (is_example k) && (free v && fields_free fs)

mutual
  unfolding free without_examples

  without-free : (v : Value) → free (without_examples v) ≡ true
  without-free null = refl
  without-free (bool b) = refl
  without-free (int n) = refl
  without-free (real m e) = refl
  without-free (str s) = refl
  without-free (list vs) = items_without-free vs
  without-free (dict fs) = fields_without-free fs

  items_without-free : (vs : Items) → items_free (items_without vs) ≡ true
  items_without-free nil = refl
  items_without-free (cons v vs) = ground (arith, without-free v, items_without-free vs)

  fields_without-free : (fs : Fields) → fields_free (fields_without fs) ≡ true
  fields_without-free end = refl
  fields_without-free (field k v fs) = ground (arith, without-free v, fields_without-free fs)

mutual
  unfolding free without_examples

  without-same : (v : Value) → free v ≡ true → without_examples v ≡ v
  without-same null h = refl
  without-same (bool b) h = refl
  without-same (int n) h = refl
  without-same (real m e) h = refl
  without-same (str s) h = refl
  without-same (list vs) h = ap list (items_without-same vs h)
  without-same (dict fs) h = ap dict (fields_without-same fs h)

  items_without-same : (vs : Items) → items_free vs ≡ true → items_without vs ≡ vs
  items_without-same nil h = refl
  items_without-same (cons v vs) h = ground (arith, without-same v, items_without-same vs)

  fields_without-same : (fs : Fields) → fields_free fs ≡ true → fields_without fs ≡ fs
  fields_without-same end h = refl
  fields_without-same (field k v fs) h =
      let one = without-same v in let rest = fields_without-same fs in ground arith

-- A step into a value: under a key, or to a place of a list.
pub data Step : Type 0 where
  key : String → Step
  place : ℕ → Step

-- A path with no key of examples.
abbrev pub plain_path : List Step → Bool
plain_path [] = true
plain_path (key k ∷ path) = not (is_example k) && plain_path path
plain_path (place n ∷ path) = plain_path path

abbrev nth : ℕ → List Value → Option Value
nth n [] = none
nth zero (v ∷ vs) = some v
nth (suc n) (v ∷ vs) = nth n vs

abbrev child : Step → Value → Option Value
child (key k) (dict fs) = lookup k (entries fs)
child (place n) (list vs) = nth n (items vs)
child _ _ = none

-- What a path leads to from a value that may be there.
unfoldable pub follow : List Step → Option Value → Option Value
follow [] o = o
follow (step ∷ path) none = none
follow (step ∷ path) (some v) = follow path (child step v)

-- What lies at a path, if anything does.
abbrev pub at : List Step → Value → Option Value
at path v = follow path (some v)

abbrev pub shorn : Option Value → Option Value
shorn none = none
shorn (some v) = some (without_examples v)

lookup-fields_without :
    (k : String) (fs : Fields)
    → is_example k ≡ false
    → lookup k (entries (fields_without fs)) ≡ shorn (lookup k (entries fs))
unfolding without_examples
lookup-fields_without k end h = refl
lookup-fields_without k (field j v fs) h =
    let rest = lookup-fields_without k fs h in
    elim (Bool-cases (k =ₜ j)) [
      | inl same ↦
          let kept : is_example j ≡ false = example_same k j same h in rw (same, kept, same) refl
      | inr other ↦ elim (Bool-cases (is_example j)) [
        | inl dropped ↦ rw (other, dropped) rest
        | inr kept ↦ rw (other, kept, other) rest
      ]
    ]

nth-items_without :
    (n : ℕ) (vs : Items) → nth n (items (items_without vs)) ≡ shorn (nth n (items vs))
unfolding without_examples
nth-items_without n nil = refl
nth-items_without zero (cons v vs) = refl
nth-items_without (suc n) (cons v vs) = nth-items_without n vs

child-without :
    (step : Step) (path : List Step) (v : Value)
    → plain_path (step ∷ path) ≡ true
    → child step (without_examples v) ≡ shorn (child step v)
unfolding without_examples
child-without (key k) path (dict fs) h = lookup-fields_without k fs (ground arith)
child-without (place n) path (list vs) h = nth-items_without n vs
child-without (key k) path null h = refl
child-without (key k) path (bool b) h = refl
child-without (key k) path (int n) h = refl
child-without (key k) path (real m e) h = refl
child-without (key k) path (str s) h = refl
child-without (key k) path (list vs) h = refl
child-without (place n) path null h = refl
child-without (place n) path (bool b) h = refl
child-without (place n) path (int m) h = refl
child-without (place n) path (real m e) h = refl
child-without (place n) path (str s) h = refl
child-without (place n) path (dict fs) h = refl

rest_plain :
    (step : Step) (path : List Step) → plain_path (step ∷ path) ≡ true → plain_path path ≡ true
rest_plain (key k) path h = ground arith
rest_plain (place n) path h = h

follow-shorn :
    (path : List Step) (o : Option Value)
    → plain_path path ≡ true
    → follow path (shorn o) ≡ shorn (follow path o)
unfolding follow
follow-shorn [] o h = refl
follow-shorn (step ∷ path) none h = refl
follow-shorn (step ∷ path) (some v) h =
    ap (follow path) (child-without step path v h)
    ∙ follow-shorn path (child step v) (rest_plain step path h)

-- The value that is left has no key of examples at any depth, and taking the examples out of it again
-- changes nothing. Along any path without a key of examples there is left just what was there,
-- without its own examples, and nothing where nothing was.
pub without_examples-free :
    (v : Value) (path : List Step)
    → plain_path path ≡ true
    → (free (without_examples v) ≡ true)
      × (without_examples (without_examples v) ≡ without_examples v)
      × (at path (without_examples v) ≡ shorn (at path v))
without_examples-free v path h = (
  without-free v,
  without-same (without_examples v) (without-free v),
  follow-shorn path (some v) h,
)
