-- ===== src/Agent/Ready.antt =====
-- .github/scripts/agent_control.py: when a leaf issue may become Ready or be claimed. The regular expressions
-- that read an issue's body are an argument (`Forms`), and so are the GitHub REST answers (`Server`), of which
-- `none` is a failed request: a ControlError that no caller catches.
use robodata.Prelude.{
  ℕ, String, Bool, true, false, not, List, [], ◌∷◌, ◌++◌, Option, none, some, str_eq, any, ◌==◌,
  if◌then◌else◌,
}
use robodata.Cycles.{sorted_set}

pub data Kind : Type 0 where
  spec requirement bug : Kind

pub data ReadyError : Type 0 where
  not_leaf no_parent_spec bad_size bad_profile leaf_closed parent_is_leaf open_pull_request :
      ReadyError
  missing_field : String → ReadyError
  parent_not_spec parent_closed dependency_open : ℕ → ReadyError

-- What the regular expressions read of a text.
pub record Forms : Type 0 where
  -- The sections of a body in order, as form_sections collects them.
  pub headings : String → List (String × String)
  pub kind_marker : String → Option Kind
  -- The numbers after `#`, by re.findall.
  pub issue_refs : String → List ℕ
  pub strip : String → String
  -- Without comments, stripped and in lower case.
  pub bare : String → String

pub record Issue : Type 0 where
  pub number : ℕ
  pub body : String
  pub labels : List String
  pub is_open : Bool

pub record Server : Type 0 where
  pub get_issue : ℕ → Option Issue
  pub has_open_pr : ℕ → Option Bool

abbrev pub one_of : List String → String → Bool
one_of names s = any (str_eq s) names

unfoldable pub kind_of_labels : List String → Option Kind
kind_of_labels labels =
    if one_of labels "kind:spec"
    then some spec
    else if one_of labels "kind:requirement"
    then some requirement
    else if one_of labels "bug"
    then some bug
    else none

abbrev pub or_kind : Option Kind → Option Kind → Option Kind
or_kind none k = k
or_kind (some k) _ = some k

abbrev pub required : List String
required =
    "Objective" ∷ "Scope" ∷ "Non-goals" ∷ "Acceptance criteria" ∷ "Validation profile"
    ∷ "Dependencies" ∷ "Size" ∷ "Priority" ∷ "Area" ∷ "Risk" ∷ []

abbrev pub placeholders : List String
placeholders = "" ∷ "-" ∷ "tbd" ∷ "todo" ∷ "_no response_" ∷ "없음?" ∷ []

abbrev pub validation_profiles : List String
validation_profiles =
    "backend" ∷ "frontend" ∷ "fullstack" ∷ "db" ∷ "docker" ∷ "docs" ∷ "submodule" ∷ []

abbrev pub is_leaf : Option Kind → Bool
is_leaf (some requirement) = true
is_leaf (some bug) = true
is_leaf _ = false

abbrev pub or_empty : Option String → String
or_empty none = ""
or_empty (some s) = s

abbrev pub single : List ℕ → Option ℕ
single (n ∷ []) = some n
single _ = none

-- A list with an error at its head if the test holds.
abbrev pub error_if : Bool → ReadyError → List ReadyError → List ReadyError
error_if true e es = e ∷ es
error_if false e es = es

abbrev pub both : Option (List ReadyError) → Option (List ReadyError) → Option (List ReadyError)
both none _ = none
both (some es) none = none
both (some es) (some fs) = some (es ++ fs)

module _ (forms : Forms) where
  unfoldable pub issue_kind : String → List String → Option Kind
  unfolding kind_of_labels
  issue_kind body labels = or_kind (forms.kind_marker body) (kind_of_labels labels)

  -- A later section of the same heading replaces the earlier one.
  unfoldable pub last_section : List (String × String) → String → Option String → Option String
  last_section [] name o = o
  last_section ((h, s) ∷ hs) name o = last_section hs name (if str_eq h name then some s else o)

  unfoldable pub section : String → String → Option String
  unfolding last_section
  section body name = last_section (forms.headings body) name none

  abbrev pub filled : Option String → Bool
  filled none = false
  filled (some s) = not (one_of placeholders (forms.bare s))

  unfoldable pub dependency_numbers : String → List ℕ
  unfolding section sorted_set
  dependency_numbers body = sorted_set (forms.issue_refs (or_empty (section body "Dependencies")))

  unfoldable pub parent_spec_number : String → Option ℕ
  unfolding section sorted_set
  parent_spec_number body =
      single (sorted_set (forms.issue_refs (or_empty (section body "Parent Spec"))))

  unfoldable pub missing_fields : List String → String → List ReadyError → List ReadyError
  unfolding section
  missing_fields [] body rest = rest
  missing_fields (n ∷ ns) body rest =
      error_if (not (filled (section body n))) (missing_field n) (missing_fields ns body rest)

  abbrev pub kind_name : Option Kind → List (String × String)
  kind_name none = []
  kind_name (some spec) = ("Type", "Spec") ∷ []
  kind_name (some requirement) = ("Type", "Requirement") ∷ []
  kind_name (some bug) = ("Type", "Bug") ∷ []

  abbrev pub dimension : String → String → List (String × String)
  dimension name value = if str_eq value "" then [] else (name, value) ∷ []

  unfoldable pub section_dimensions : List (String × String) → String → List (String × String)
  unfolding section
  section_dimensions [] body = []
  section_dimensions ((heading, name) ∷ ns) body =
      dimension name (forms.strip (or_empty (section body heading))) ++ section_dimensions ns body

  -- _project_dimensions: the updates in order.
  unfoldable pub project_dimensions : String → Option Kind → List (String × String)
  unfolding section_dimensions
  project_dimensions body kind =
      kind_name kind
      ++ section_dimensions
          (("Priority", "Priority")
            ∷ ("Area", "Area")
            ∷ ("Risk", "Risk")
            ∷ ("Size", "Size")
            ∷ ("Validation profile", "Validation Profile")
            ∷ [])
          body

  abbrev pub has_parent : Option ℕ → Bool
  has_parent none = false
  has_parent (some n) = true

  unfoldable pub ready_errors : String → Option Kind → List ReadyError
  unfolding missing_fields parent_spec_number section
  ready_errors body kind =
      if is_leaf kind
      then missing_fields required body (
          error_if (not (has_parent (parent_spec_number body))) no_parent_spec (
            error_if (not (one_of ("S" ∷ "M" ∷ []) (forms.strip (or_empty (section body "Size")))))
              bad_size
              (error_if
                (not (
                  one_of validation_profiles
                    (forms.strip (or_empty (section body "Validation profile")))))
                bad_profile [])))
      else not_leaf ∷ []

  module _ (server : Server) where
    abbrev pub dependency_error : ℕ → Option Issue → Option (List ReadyError)
    dependency_error n none = none
    dependency_error n (some i) = some (error_if i.is_open (dependency_open n) [])

    unfoldable pub check_dependencies : List ℕ → Option (List ReadyError)
    check_dependencies [] = some []
    check_dependencies (n ∷ ns) =
        both (dependency_error n (server.get_issue n)) (check_dependencies ns)

    unfoldable pub dependency_errors : String → Option (List ReadyError)
    unfolding check_dependencies dependency_numbers
    dependency_errors body = check_dependencies (dependency_numbers body)

    abbrev pub parent_errors : ℕ → Option Issue → Option (List ReadyError)
    parent_errors n none = none
    parent_errors n (some p) = some (
        error_if (not (one_of p.labels "kind:spec")) (parent_not_spec n)
          (error_if (not p.is_open) (parent_closed n) []))

    abbrev pub check_parent : ℕ → Option ℕ → Option (List ReadyError)
    check_parent number none = some []
    check_parent number (some n) =
        if n == number then some (parent_is_leaf ∷ []) else parent_errors n (server.get_issue n)

    unfoldable pub parent_spec_errors : ℕ → String → Option (List ReadyError)
    unfolding parent_spec_number
    parent_spec_errors number body = check_parent number (parent_spec_number body)

    abbrev pub pull_errors : Option Bool → Option (List ReadyError)
    pull_errors none = none
    pull_errors (some b) = some (error_if b open_pull_request [])

    -- _ready_failures with its default check_open_pr; `none` where a request fails.
    unfoldable pub ready_failures : Issue → Option (List ReadyError)
    unfolding ready_errors issue_kind parent_spec_errors dependency_errors
    ready_failures i =
        both
          (some (
            ready_errors i.body (issue_kind i.body i.labels)
            ++ error_if (not i.is_open) leaf_closed []))
          (both (parent_spec_errors i.number i.body)
            (both (dependency_errors i.body) (pull_errors (server.has_open_pr i.number))))
