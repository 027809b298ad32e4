-- ===== src/Agent/Refused.antt =====
-- .github/scripts/agent_control.py: what has no say over an issue's claim: comments of other authors, and requests of
-- runs that do not hold the claim.
use robodata.Prelude.{
  Bool-cases, ◌≢◌, inl, inr, str_eq, eq_iff, ℕ, String, Bool, true, false, ◌≡◌, refl, ap, ◌∙◌, List,
  [], ◌∷◌, ◌++◌, Option, none, some, prepend_if, keep,
}
use robodata.Prelude.Checked.{passed}
use robodata.Agent.Ready.{
  Issue, Forms, Server, issue_kind, project_dimensions, ready_failures, ReadyError,
}
use robodata.Agent.{
  done, Command, ready, claim, heartbeat, block, release, complete, rejected, ControlRequest,
  ClaimState, Receipt, Comment, passes_by, mark_of, receipt_mark, claim_from_fields,
  trusted_receipt_bodies, is_bot, reduce_keyed, reduce_receipts, live_receipt_claims,
  parse_receipts, told, Mark, is_live, Reason, Status, Key, reduce_marked, grants, extends, ends,
  denies,
}
use robodata.Agent.Controller.{
  post_comment, rejection, Board, clear_claim, Effect, set_dimension, apply_effect, apply_effects,
  board_receipts, dispatch, dimension_effects, handle_request, owns, handle_held, mismatch,
}
use robodata.Agent.Events.{
  IssueAction, closed, reopened, other_action, sync_action, complete_all, effective_action, Event,
  issues, issue_comment, pull_request, schedule, run_event, sync_issue, comment_effects,
  sync_pull_request, reconcile_item,
}
use robodata.Agent.Live.{reduce_receipts-append}
use robodata.Agent.Safe.{post-receipts}

trusted-skip :
    (xs ys : List Comment) (c : Comment)
    → is_bot c.login ≡ false
    → trusted_receipt_bodies (xs ++ c ∷ ys) ≡ trusted_receipt_bodies (xs ++ ys)
unfolding trusted_receipt_bodies
trusted-skip [] ys c h = rw h refl
trusted-skip (x ∷ xs) ys c h = ap (prepend_if (is_bot x.login) x.receipts) (trusted-skip xs ys c h)

-- A board without a comment, and with it.
abbrev pub without : Board → List Comment → List Comment → Board
without b xs ys = record b { comments = xs ++ ys }

abbrev pub with_comment : Board → List Comment → Comment → List Comment → Board
with_comment b xs c ys = record b { comments = xs ++ c ∷ ys }

not_bot : (o : Option String) → o ≢ some "github-actions[bot]" → is_bot o ≡ false
not_bot none n = refl
not_bot (some s) n = elim (Bool-cases (str_eq s "github-actions[bot]")) [
  | inl t ↦ absurd (n (ap some ((eq_iff s "github-actions[bot]").0 t)))
  | inr f ↦ f
]

receipts-skip :
    (b : Board) (xs ys : List Comment) (c : Comment)
    → is_bot c.login ≡ false
    → board_receipts (with_comment b xs c ys) ≡ board_receipts (without b xs ys)
unfolding board_receipts
receipts-skip b xs ys c h = rw (trusted-skip xs ys c h) refl

module _ (forms : Forms) (server : Server) (lease_seconds max_attempts now : ℕ) where
  sync_action-skip :
      (a : IssueAction) (ds : List Effect) (b : Board) (xs ys : List Comment) (c : Comment)
      → is_bot c.login ≡ false
      → sync_action now a ds (with_comment b xs c ys) ≡ sync_action now a ds (without b xs ys)
  sync_action-skip closed ds b xs ys c h =
      ap (λ rs. complete_all (live_receipt_claims now rs) ++ (ds ++ clear_claim done))
        (receipts-skip b xs ys c h)
  sync_action-skip reopened ds b xs ys c h = refl
  sync_action-skip other_action ds b xs ys c h = refl

  -- A comment of another author than github-actions[bot], wherever it stands and whatever receipts it claims to hold,
  -- changes none of the calls that an event leads to.
  pub run_event-skip :
      (e : Event) (b : Board) (xs ys : List Comment) (c : Comment)
      → c.login ≢ some "github-actions[bot]"
      → run_event forms server lease_seconds max_attempts now e (with_comment b xs c ys)
        ≡ run_event forms server lease_seconds max_attempts now e (without b xs ys)
  unfolding run_event sync_issue handle_request sync_pull_request reconcile_item
  run_event-skip (issues i a) b xs ys c n =
      sync_action-skip (effective_action i a)
        (dimension_effects (project_dimensions forms i.body (issue_kind forms i.body i.labels))) b
        xs ys c (not_bot c.login n)
  run_event-skip (issue_comment p w o i) b xs ys c n =
      ap
        (λ rs. comment_effects p w o (λ q.
          dimension_effects (project_dimensions forms i.body (issue_kind forms i.body i.labels))
          ++ dispatch now lease_seconds max_attempts q.command q (ready_failures forms server i)
              b.values rs))
        (receipts-skip b xs ys c (not_bot c.login n))
  run_event-skip (pull_request p) b xs ys c n = refl
  run_event-skip schedule b xs ys c n = refl

-- The claim fields and the comments are the same.
abbrev pub SameClaim : Board → Board → Type 0
SameClaim b c =
    (c.values.status ≡ b.values.status)
    × (c.values.claim_id ≡ b.values.claim_id)
    × (c.values.run_id ≡ b.values.run_id)
    × (c.values.lease_until ≡ b.values.lease_until)
    × (c.values.attempt ≡ b.values.attempt)
    × (c.comments ≡ b.comments)
    × (c.labels ≡ b.labels)

pub dimensions-SameClaim :
    (ds : List (String × String)) (b : Board) → SameClaim b (apply_effects (dimension_effects ds) b)
unfolding apply_effects apply_effect
dimensions-SameClaim [] b = (refl, refl, refl, refl, refl, refl, refl)
dimensions-SameClaim (d ∷ ds) b = dimensions-SameClaim ds (apply_effect (set_dimension d.0 d.1) b)

pub apply_effects-append :
    (es fs : List Effect) (b : Board)
    → apply_effects (es ++ fs) b ≡ apply_effects fs (apply_effects es b)
unfolding apply_effects
apply_effects-append [] fs b = refl
apply_effects-append (e ∷ es) fs b = apply_effects-append es fs (apply_effect e b)

-- heartbeat, block or release.
abbrev pub is_holders : Command → Bool
is_holders heartbeat = true
is_holders block = true
is_holders release = true
is_holders _ = false

abbrev pub held_by_request : ControlRequest → Option ClaimState → Bool
held_by_request q none = false
held_by_request q (some c) = owns q.claim_id q.run_id c

-- The receipt changes no claim.
abbrev pub is_inert : Mark → Bool
is_inert denies = true
is_inert passes_by = true
is_inert _ = false

reduce_marked_inert :
    (m : Mark) (k : Key) (r : Receipt) (cs : List ClaimState)
    → is_inert m ≡ true
    → reduce_marked m k r cs ≡ cs
reduce_marked_inert denies k r cs h = refl
reduce_marked_inert passes_by k r cs h = refl
reduce_marked_inert grants k r cs h = cc
reduce_marked_inert extends k r cs h = cc
reduce_marked_inert ends k r cs h = cc

reduce_inert :
    (x y : Option String) (r : Receipt) (cs : List ClaimState)
    → is_inert (receipt_mark r) ≡ true
    → reduce_keyed x y r cs ≡ cs
reduce_inert none y r cs h = refl
reduce_inert (some x) none r cs h = refl
reduce_inert (some x) (some y) r cs h = reduce_marked_inert (receipt_mark r) _ r cs h

-- The claim fields and labels are the same, and so are the claims that the receipts have as live.
abbrev pub Unmoved : Board → Board → Type 0
Unmoved b c =
    (c.values.status ≡ b.values.status)
    × (c.values.claim_id ≡ b.values.claim_id)
    × (c.values.run_id ≡ b.values.run_id)
    × (c.values.lease_until ≡ b.values.lease_until)
    × (c.values.attempt ≡ b.values.attempt)
    × ((t : ℕ)
        → live_receipt_claims t (board_receipts c) ≡ live_receipt_claims t (board_receipts b))

rejected_inert : (d : Command) → is_inert (mark_of (some d) (some rejected)) ≡ true
unfolding mark_of
rejected_inert ready = refl
rejected_inert claim = refl
rejected_inert heartbeat = refl
rejected_inert block = refl
rejected_inert release = refl
rejected_inert complete = refl

posted-live :
    (t : ℕ) (rs : List Receipt) (r : Receipt)
    → is_inert (receipt_mark r) ≡ true
    → live_receipt_claims t (rs ++ r ∷ []) ≡ live_receipt_claims t rs
unfolding live_receipt_claims
posted-live t rs r h =
    ap (keep (is_live t)) (
      reduce_receipts-append rs r [] ∙ reduce_inert r.claim_id r.run_id r (reduce_receipts rs []) h)

pub same-receipts : (b c : Board) → c.comments ≡ b.comments → board_receipts c ≡ board_receipts b
unfolding board_receipts
same-receipts b c m = ap (λ cs. parse_receipts (trusted_receipt_bodies cs)) m

abbrev rejected_receipt : ControlRequest → Reason → Option Status → Receipt
rejected_receipt q why s = record {
  command = some q.command;
  result = some rejected;
  claim_id = q.claim_id;
  run_id = q.run_id;
  attempt = none;
  lease_until = none;
  status = s;
  reason = some why;
}

posted-Unmoved :
    (r : Receipt) (b c : Board)
    → is_inert (receipt_mark r) ≡ true
    → SameClaim b c
    → Unmoved b (apply_effects (post_comment r ∷ []) c)
unfolding apply_effects apply_effect
posted-Unmoved r b c h (s, i, u, l, a, m, n) = (
  s,
  i,
  u,
  l,
  a,
  λ t.
      ap (live_receipt_claims t) (post-receipts c r)
      ∙ posted-live t (board_receipts c) r h
      ∙ ap (live_receipt_claims t) (same-receipts b c m),
)

-- A rejected receipt.
pub rejection-Unmoved :
    (q : ControlRequest) (why : Reason) (s : Option Status) (b c : Board)
    → SameClaim b c
    → Unmoved b (apply_effects (rejection q why s ∷ []) c)
rejection-Unmoved q why s b c h =
    posted-Unmoved (rejected_receipt q why s) b c (rejected_inert q.command) h

module _ (forms : Forms) (server : Server) (now lease_seconds max_attempts : ℕ) (q : ControlRequest)
    (b : Board) where
  handle_held-mismatch :
      (o : Option ClaimState)
      → claim_from_fields b.values ≡ passed o
      → held_by_request q o ≡ false
      → handle_held now lease_seconds max_attempts q b.values (claim_from_fields b.values)
        ≡ mismatch q
  unfolding handle_held
  handle_held-mismatch none e h = rw e refl
  handle_held-mismatch (some c) e h = rw (e, h) refl

  dispatch-held :
      (d : Command) (fails : Option (List ReadyError))
      → is_holders d ≡ true
      → dispatch now lease_seconds max_attempts d q fails b.values (board_receipts b)
        ≡ handle_held now lease_seconds max_attempts q b.values (claim_from_fields b.values)
  dispatch-held heartbeat fails e = refl
  dispatch-held block fails e = refl
  dispatch-held release fails e = refl
  dispatch-held ready fails e = cc
  dispatch-held claim fails e = cc
  dispatch-held complete fails e = cc

  -- A heartbeat, block or release request of a run that is not the one in the project's readable claim fields leaves
  -- the status, the claim's fields, the attempt and the claims that the receipts have as live at any time as they
  -- are.
  pub handle_request-Unmoved :
      (i : Issue) (o : Option ClaimState)
      → is_holders q.command ≡ true
      → claim_from_fields b.values ≡ passed o
      → held_by_request q o ≡ false
      → Unmoved b
          (apply_effects (handle_request now lease_seconds max_attempts forms server i q b) b)
  unfolding handle_request
  handle_request-Unmoved i o h e m =
      let ds = project_dimensions forms i.body (issue_kind forms i.body i.labels) in
      let calls =
        dispatch-held q.command (ready_failures forms server i) h ∙ handle_held-mismatch o e m in
      rw (calls, apply_effects-append (dimension_effects ds) (mismatch q) b)
        (rejection-Unmoved q (told "Claim ID or Agent Run does not match the active claim.") none b
          (apply_effects (dimension_effects ds) b) (dimensions-SameClaim ds b))
