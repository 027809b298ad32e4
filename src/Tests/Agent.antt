-- ===== src/Tests/Agent.antt =====
-- A leaf issue that is ready and two runs of agents that claim it.
use robodata.Prelude.{
  Bool, true, ◌⊎◌, Option, none, some, ℕ, zero, suc, ◌*◌, ◌+◌, ◌==◌, any, not, ◌≢◌, eq_iff, arith,
  String, true, false, ◌≡◌, refl, List, [], ◌∷◌, none, some, str_eq, take, length, ◌≤◌,
  if◌then◌else◌,
}
use robodata.Prelude.Checked.{passed}
use robodata.Table.{Rows}
use robodata.Agent.Ready.{Forms, Server, Issue, requirement, ready_failures, project_dimensions}
use robodata.Agent.{
  Command, claim, heartbeat, ControlRequest, Key, Values, Receipt, Comment, instant, ready_to_claim,
  in_progress, accepted, is_live, claim_from_fields, reduce_receipts,
}
use robodata.Agent.Controller.{Board, board_receipts, handle_request, apply_effects, choose_claim}
use robodata.Agent.Events.{Event, issue_comment, run_event, Item, reconcile}
use robodata.Agent.Safe.{Held}
use robodata.Agent.History.{
  Step, run_history, OneLive, run_history-OneLive, LockStep, holder, run_event-LockStep,
}
use robodata.Agent.Exclusive.{run_event-Held}
use robodata.Agent.Attempts.{IsKnown, choose_claim-IsKnown}
use robodata.Agent.Refused.{run_event-skip, with_comment, without, Unmoved, handle_request-Unmoved}
use robodata.Agent.Request.{Texts, parse_control_request, format_control_request}
use robodata.Agent.Formatted.{parse_control_request-format}
use robodata.Agent.Pages.{
  drop, Serves, listed, list_comments, list_comments_lem, has_open_pr, has_open_pr_lem,
}
use robodata.Agent.Leaf.{IsReady}
use robodata.Agent.Unready.{handle_request-IsReady}
use robodata.Agent.Contract.{PullText, validate_pr_contract}
use robodata.Agent.Accepted.{Verdict, validate_pr_contract_lem}
use robodata.Agent.Reconcile.{Repaired, reconcile-Repaired}

abbrev forms : Forms
forms = record {
  headings = λ s.
      ("Objective", "x")
      ∷ ("Scope", "x")
      ∷ ("Non-goals", "x")
      ∷ ("Acceptance criteria", "x")
      ∷ ("Validation profile", "backend")
      ∷ ("Dependencies", "none")
      ∷ ("Size", "S")
      ∷ ("Priority", "P1")
      ∷ ("Area", "x")
      ∷ ("Risk", "x")
      ∷ ("Parent Spec", "#7")
      ∷ [];
  kind_marker = λ s. some requirement;
  issue_refs = λ s. if str_eq s "#7" then 7 ∷ [] else [];
  strip = λ s. s;
  bare = λ s. s;
}

abbrev server : Server
server = record {
  get_issue =
      λ n. some (record { number = n; body = ""; labels = "kind:spec" ∷ []; is_open = true });
  has_open_pr = λ n. some false;
}

abbrev leaf : Issue
leaf = record { number = 12; body = ""; labels = []; is_open = true }

abbrev request : Command → String → ControlRequest
request c run = record { command = c; claim_id = some "c1"; run_id = some run; reason = none }

abbrev idle : Board
idle = record {
  values = record {
    status = some ready_to_claim;
    claim_id = none;
    run_id = none;
    lease_until = none;
    attempt = none;
    dimensions = [];
  };
  comments = [];
  labels = [];
}

abbrev claims : Event
claims = issue_comment false true (some (request claim "r1")) leaf

ready_leaf : ready_failures forms server leaf ≡ some []
unfolding ready_failures
ready_leaf = refl

taken :
    (apply_effects (run_event forms server 7200000000 3 1000000 claims idle) idle).values.status
    ≡ some in_progress
unfolding run_event apply_effects project_dimensions
taken = refl

abbrev history : List Step
history =
    record { elapsed = 5; server = server; event = claims; calls = 3 }
    ∷ record { elapsed = 5; server = server; event = claims; calls = 99 }
    ∷ []

run_history-OneLive_example :
    OneLive
      (run_history forms 7200000000 3 100 idle history).0
      (run_history forms 7200000000 3 100 idle history).1
unfolding board_receipts
run_history-OneLive_example = run_history-OneLive forms 7200000000 3 100 idle history refl refl

idle-Held : Held 100 (record { claim_id = "c1"; run_id = "r1" }) idle
unfolding board_receipts reduce_receipts
idle-Held = record { formed = tt; recorded = λ c m l. elim m [ ]; fields = λ t e l. cc }

run_event-Held_example :
    (j : Key) × Held 100 j idle
    × Held 100 j (apply_effects (take 4 (run_event forms server 7200000000 3 100 claims idle)) idle)
run_event-Held_example =
    run_event-Held 100 7200000000 3 (record { claim_id = "c1"; run_id = "r1" }) idle idle-Held forms
      server claims 4

abbrev held_values : Values
held_values = record {
  status = some in_progress;
  claim_id = some "c1";
  run_id = some "r1";
  lease_until = some (instant 5000000);
  attempt = some 1;
  dimensions = [];
}

abbrev held : Board
held = record { values = held_values; comments = []; labels = [] }

abbrev told_receipt : Receipt
told_receipt = record {
  command = some claim;
  result = some accepted;
  claim_id = some "c1";
  run_id = some "r1";
  attempt = some 1;
  lease_until = some (instant 5000000);
  status = some in_progress;
  reason = none;
}

abbrev stranger : Comment
stranger = record { login = some "someone"; receipts = told_receipt ∷ [] }

other_login : stranger.login ≢ some "github-actions[bot]"
other_login e =
    let q : ◌≡◌ {A = String} "someone" "github-actions[bot]" = ground arith in
    cc ((eq_iff "someone" "github-actions[bot]").1 q)

run_event-skip_example :
    run_event forms server 7200000000 3 100 claims (with_comment idle [] stranger [])
    ≡ run_event forms server 7200000000 3 100 claims (without idle [] [])
run_event-skip_example =
    run_event-skip forms server 7200000000 3 100 claims idle [] [] stranger other_login

handle_request-Unmoved_example : Unmoved held (
    apply_effects
      (handle_request 100 7200000000 3 forms server leaf (request heartbeat "r2") held)
      held)
unfolding claim_from_fields
handle_request-Unmoved_example =
    handle_request-Unmoved forms server 100 7200000000 3 (request heartbeat "r2") held leaf
      (some (record { claim_id = "c1"; run_id = "r1"; attempt = 1; lease_until = 5000000 })) refl
      refl refl

choose_claim-IsKnown_example :
    IsKnown 100 7200000000 3 held_values
      (told_receipt ∷ [])
      (record { claim_id = "c1"; run_id = "r1"; attempt = 1; lease_until = 5000000 })
unfolding choose_claim is_live
choose_claim-IsKnown_example =
    choose_claim-IsKnown 100 7200000000 3 (record { claim_id = "c1"; run_id = "r1" }) held_values
      (told_receipt ∷ [])
      (record { claim_id = "c1"; run_id = "r1"; attempt = 1; lease_until = 5000000 })
      (some told_receipt) ((λ g. (1, 5000000, refl, refl)), tt) refl refl

abbrev items : List Item
items = record { is_own = true; board = held } ∷ record { is_own = false; board = held } ∷ []

reconcile-Repaired_example :
    Rows (Repaired 9000000) items (reconcile 9000000 3 items).1
    × ((reconcile 9000000 3 items).0 ≤ length items)
reconcile-Repaired_example = reconcile-Repaired 9000000 3 items

abbrev texts : Texts
texts = record {
  is_identifier = λ s. not (str_eq s "");
  strip = λ s. s;
  size = λ s. 1;
  has_delimiter = λ s. str_eq s "-->";
}

parse_control_request-format_example :
    parse_control_request texts (format_control_request (request claim "r1"))
    ≡ passed (request claim "r1")
parse_control_request-format_example =
    parse_control_request-format texts (request claim "r1") (record {
      allowed = refl;
      claim_id_fits = refl;
      run_id_fits = refl;
      reason_fits = tt;
      has_ids = refl;
      has_reason = refl;
    })

abbrev numbers : List ℕ
numbers = 4 ∷ 7 ∷ 12 ∷ []

abbrev page : ℕ → Option (List ℕ)
page zero = none
page (suc n) = some (take 100 (drop (100 * n) numbers))

page-Serves : Serves numbers page
page-Serves n = let e : n + 1 ≡ suc n = omega arith in rw e refl

list_comments_lem_example : list_comments 2 page 1 [] ≡ listed numbers
list_comments_lem_example = list_comments_lem numbers page page-Serves 2 (omega arith)

has_open_pr_lem_example : has_open_pr 2 (λ n. n == 7) page 1 ≡ listed (any (λ n. n == 7) numbers)
has_open_pr_lem_example = has_open_pr_lem numbers page page-Serves (λ n. n == 7) 2 (omega arith)

-- A server whose pull request closes every issue.
abbrev busy : Server
busy = record { get_issue = server.get_issue; has_open_pr = λ n. some true }

handle_request-IsReady_example :
    IsReady forms busy leaf
    ⊎ Unmoved idle (
        apply_effects
          (handle_request 100 7200000000 3 forms busy leaf (request claim "r1") idle)
          idle)
handle_request-IsReady_example =
    handle_request-IsReady forms busy 100 7200000000 3 (request claim "r1") idle leaf refl

run_event-LockStep_example :
    let (t, c) = run_history forms 7200000000 3 100 idle history in
    LockStep (holder (t + 5) c) (
      holder
        (t + 5)
        (apply_effects (take 3 (run_event forms server 7200000000 3 (t + 5) claims c)) c))
unfolding board_receipts
run_event-LockStep_example =
    run_event-LockStep forms 7200000000 3 100 idle history
      (record { elapsed = 5; server = server; event = claims; calls = 3 }) refl refl

abbrev pull : PullText
pull = record {
  base_is_main = true;
  closing = 12 ∷ [];
  related = 7 ∷ [];
  branch = some (12, 1);
  sections =
      ("Summary", "x")
      ∷ ("Scope", "x")
      ∷ ("Acceptance criteria", "- [x] a")
      ∷ ("Validation", "x")
      ∷ ("Validation gaps", "x")
      ∷ ("Data safety", "x")
      ∷ ("Submodule changes", "x")
      ∷ ("Risk and rollback", "x")
      ∷ ("Agent metadata", "x")
      ∷ [];
  claim_ids = "c1" ∷ [];
  agent_runs = "r1" ∷ [];
}

abbrev is_filled : String → Bool
is_filled s = not (str_eq s "")

pull_passes : (validate_pr_contract is_filled (λ s. true) pull).1 ≡ []
unfolding validate_pr_contract
pull_passes = refl

validate_pr_contract_lem_example :
    Verdict is_filled (λ s. true) pull (validate_pr_contract is_filled (λ s. true) pull)
validate_pr_contract_lem_example = validate_pr_contract_lem is_filled (λ s. true) pull
