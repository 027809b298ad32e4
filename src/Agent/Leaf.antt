-- ===== src/Agent/Leaf.antt =====
-- .github/scripts/agent_control.py: what an issue is of which _ready_failures finds nothing wrong, and that no other one
-- can be claimed.
use robodata.Prelude.{
  ℕ, String, Bool, true, false, not, ◌≡◌, refl, ap, inl, inr, List, [], ◌∷◌, ◌++◌, Option, none,
  some, ◌==◌, Bool-cases, Option-cases, In, here, there, arith,
}
use robodata.Cycles.Ascending.{In-sorted_set}
use robodata.Agent.Ready.{
  Forms, Server, Issue, ReadyError, Kind, error_if, both, one_of, required, is_leaf, or_empty,
  issue_kind, section, filled, missing_fields, missing_field, has_parent, parent_spec_number,
  ready_errors, dependency_error, check_dependencies, dependency_errors, dependency_numbers,
  parent_errors, check_parent, parent_spec_errors, pull_errors, ready_failures, leaf_closed,
}

nil_of_append : (es fs : List ReadyError) → es ++ fs ≡ [] → (es ≡ []) × (fs ≡ [])
nil_of_append [] fs h = (refl, h)
nil_of_append (e ∷ es) fs h = cc

both-nil : (a b : Option (List ReadyError)) → both a b ≡ some [] → (a ≡ some []) × (b ≡ some [])
both-nil none b h = cc
both-nil (some es) none h = cc
both-nil (some es) (some fs) h =
    let (x, y) = nil_of_append es fs (ground arith) in (ap some x, ap some y)

nil_of_both :
    (es : List ReadyError) (b : Option (List ReadyError))
    → both (some es) b ≡ some []
    → (es ≡ []) × (b ≡ some [])
nil_of_both es none h = cc
nil_of_both es (some fs) h = let (x, y) = nil_of_append es fs (ground arith) in (x, ap some y)

true_of_not : (b : Bool) → not b ≡ false → b ≡ true
true_of_not true h = refl
true_of_not false h = cc

error_if-nil :
    (t : Bool) (e : ReadyError) (es : List ReadyError)
    → error_if t e es ≡ []
    → (t ≡ false) × (es ≡ [])
error_if-nil true e es h = cc
error_if-nil false e es h = (refl, h)

In-split :
    {A : Type 0} {P : A → Type 0} (x : A) (xs : List A)
    → P x
    → ((y : A) → In y xs → P y)
    → (y : A) → In y (x ∷ xs)
    → P y
In-split x xs p f y here = p
In-split x xs p f y (there m) = f y m

module _ (forms : Forms) where
  missing_fields-nil :
      (ns : List String) (body : String) (rest : List ReadyError)
      → missing_fields forms ns body rest ≡ []
      → ((n : String) → In n ns → filled forms (section forms body n) ≡ true) × (rest ≡ [])
  unfolding missing_fields
  missing_fields-nil [] body rest h = ((λ n m. elim m [ ]), h)
  missing_fields-nil (n ∷ ns) body rest h =
      let (t, u) =
        error_if-nil (not (filled forms (section forms body n))) (missing_field n)
          (missing_fields forms ns body rest) h in
      let (f, r) = missing_fields-nil ns body rest u in (In-split n ns (ground arith) f, r)

  module _ (server : Server) where
    -- The issue is closed.
    abbrev pub IsClosed : ℕ → Type 0
    IsClosed n = (d : Issue) × (server.get_issue n ≡ some d) × (d.is_open ≡ false)

    -- The issue is open and has the label of a spec.
    abbrev pub IsOpenSpec : ℕ → Type 0
    IsOpenSpec n =
        (p : Issue) × (server.get_issue n ≡ some p)
        × (one_of p.labels "kind:spec" ≡ true)
        × (p.is_open ≡ true)

    pub record IsReady (i : Issue) : Type 0 where
      pub open_leaf : i.is_open ≡ true
      pub leaf_kind : is_leaf (issue_kind forms i.body i.labels) ≡ true
      pub fields : (n : String) → In n required → filled forms (section forms i.body n) ≡ true
      pub spec_of : (p : ℕ) × (parent_spec_number forms i.body ≡ some p) × IsOpenSpec p
      pub dependencies :
          (n : ℕ)
          → In n (forms.issue_refs (or_empty (section forms i.body "Dependencies")))
          → IsClosed n
      pub no_pull : server.has_open_pr i.number ≡ some false

    dependency-IsClosed :
        (n : ℕ) → dependency_error forms server n (server.get_issue n) ≡ some [] → IsClosed n
    dependency-IsClosed n h = elim (Option-cases (server.get_issue n)) [
      | inl e ↦ let f = rw e at h in cc
      | inr (d, e) ↦ elim (Bool-cases d.is_open) [
        | inl t ↦ let f = rw (e, t) at h in cc
        | inr t ↦ (d, e, t)
      ]
    ]

    check_dependencies-nil :
        (ns : List ℕ)
        → check_dependencies forms server ns ≡ some []
        → (n : ℕ) → In n ns
        → IsClosed n
    unfolding check_dependencies
    check_dependencies-nil [] h = λ n m. elim m [ ]
    check_dependencies-nil (k ∷ ns) h =
        let (x, y) =
          both-nil (dependency_error forms server k (server.get_issue k))
            (check_dependencies forms server ns) h in
        In-split k ns (dependency-IsClosed k x) (check_dependencies-nil ns y)

    parent-IsOpenSpec :
        (n : ℕ) → parent_errors forms server n (server.get_issue n) ≡ some [] → IsOpenSpec n
    parent-IsOpenSpec n h = elim (Option-cases (server.get_issue n)) [
      | inl e ↦ let f = rw e at h in cc
      | inr (p, e) ↦ elim (Bool-cases (one_of p.labels "kind:spec")) [
        | inl t ↦ elim (Bool-cases p.is_open) [
          | inl o ↦ (p, e, t, o)
          | inr o ↦ let f = rw (e, t, o) at h in cc
        ]
        | inr t ↦ let f = rw (e, t) at h in cc
      ]
    ]

    check_parent-nil :
        (number : ℕ) (o : Option ℕ)
        → has_parent forms o ≡ true
        → check_parent forms server number o ≡ some []
        → (p : ℕ) × (o ≡ some p) × IsOpenSpec p
    check_parent-nil number none t h = cc
    check_parent-nil number (some n) t h = elim (Bool-cases (n == number)) [
      | inl e ↦ let f = rw e at h in cc
      | inr e ↦ (n, refl, parent-IsOpenSpec n (rw e at h))
    ]

    pull_errors-nil : (o : Option Bool) → pull_errors forms server o ≡ some [] → o ≡ some false
    pull_errors-nil none h = cc
    pull_errors-nil (some true) h = cc
    pull_errors-nil (some false) h = refl

    -- Nothing is wrong with an issue exactly where it is ready.
    ready_errors-nil :
        (body : String) (kind : Option Kind)
        → ready_errors forms body kind ≡ []
        → (is_leaf kind ≡ true)
          × ((n : String) → In n required → filled forms (section forms body n) ≡ true)
          × (has_parent forms (parent_spec_number forms body) ≡ true)
    unfolding ready_errors
    ready_errors-nil body kind h = elim (Bool-cases (is_leaf kind)) [
      | inl t ↦
          let (f, r) = missing_fields-nil required body _ (rw t at h) in
          let (p, u) = error_if-nil _ _ _ r in
          (t, f, true_of_not (has_parent forms (parent_spec_number forms body)) p)
      | inr t ↦ let f = rw t at h in cc
    ]

    -- An issue of which _ready_failures finds nothing wrong is open and a requirement or a bug, has all the fields that are
    -- asked for and one parent, an open issue with the label of a spec; all its dependencies are closed, and
    -- no open pull request closes it.
    pub ready_failures-IsReady : (i : Issue) → ready_failures forms server i ≡ some [] → IsReady i
    unfolding ready_failures parent_spec_errors dependency_errors dependency_numbers
    ready_failures-IsReady i h =
        let (a, rest) = nil_of_both _ _ h in
        let (p, more) = both-nil _ _ rest in
        let (d, q) = both-nil _ _ more in
        let (es, o) =
          nil_of_append (ready_errors forms i.body (issue_kind forms i.body i.labels))
            (error_if (not i.is_open) leaf_closed []) a in
        let (leaf, f, has) = ready_errors-nil i.body (issue_kind forms i.body i.labels) es in
        record {
          open_leaf = true_of_not i.is_open (error_if-nil (not i.is_open) leaf_closed [] o).0;
          leaf_kind = leaf;
          fields = f;
          spec_of = check_parent-nil i.number (parent_spec_number forms i.body) has p;
          dependencies = λ n m.
              check_dependencies-nil (dependency_numbers forms i.body) d n (
                In-sorted_set (forms.issue_refs (or_empty (section forms i.body "Dependencies")))
                  m);
          no_pull = pull_errors-nil (server.has_open_pr i.number) q;
        }
