-- ===== src/Agent/Unready.antt =====
-- .github/scripts/agent_control.py: a claim of an issue that is not ready.
use robodata.Prelude.{ℕ, ◌≡◌, refl, ap, ◌⊎◌, inl, inr, List, [], ◌∷◌, ◌++◌, Option, none, some}
use robodata.Agent.Ready.{
  Forms, Server, Issue, ReadyError, ready_failures, issue_kind, project_dimensions,
}
use robodata.Agent.{claim, failures, ControlRequest, live_receipt_claims}
use robodata.Agent.Controller.{
  Board, apply_effects, board_receipts, handle_claim, dispatch, dimension_effects, handle_request,
}
use robodata.Agent.Leaf.{IsReady, ready_failures-IsReady}
use robodata.Agent.Refused.{
  SameClaim, Unmoved, same-receipts, rejection-Unmoved, dimensions-SameClaim, apply_effects-append,
}

same-Unmoved : (b c : Board) → SameClaim b c → Unmoved b c
same-Unmoved b c (s, i, r, l, a, m, n) =
    (s, i, r, l, a, λ t. ap (live_receipt_claims t) (same-receipts b c m))

module _ (forms : Forms) (server : Server) (now lease_seconds max_attempts : ℕ) (q : ControlRequest)
    (b : Board) where
  claim-Unmoved :
      (fails : Option (List ReadyError)) (c : Board)
      → SameClaim b c
      → (fails ≡ some [])
        ⊎ Unmoved b (
            apply_effects
              (handle_claim now lease_seconds max_attempts q fails b.values (board_receipts b))
              c)
  unfolding handle_claim apply_effects
  claim-Unmoved none c h = inr (same-Unmoved b c h)
  claim-Unmoved (some []) c h = inl refl
  claim-Unmoved (some (e ∷ es)) c h = inr (rejection-Unmoved q (failures (e ∷ es)) none b c h)

  -- A claim request leaves the status, the claim's fields, the attempt and the claims that the receipts have as live at
  -- any time as they are, unless the issue is open and a requirement or a bug, has all the fields that are asked
  -- for and one parent, an open issue with the label of a spec, all its dependencies are closed, and no open pull
  -- request closes it.
  pub handle_request-IsReady :
      (i : Issue)
      → q.command ≡ claim
      → IsReady forms server i
        ⊎ Unmoved b
            (apply_effects (handle_request now lease_seconds max_attempts forms server i q b) b)
  unfolding handle_request
  handle_request-IsReady i e =
      let ds = project_dimensions forms i.body (issue_kind forms i.body i.labels) in
      let c = apply_effects (dimension_effects ds) b in
      elim (claim-Unmoved (ready_failures forms server i) c (dimensions-SameClaim ds b)) [
        | inl r ↦ inl (ready_failures-IsReady forms server i r)
        | inr u ↦
            let step =
              ap
                (λ d.
                  dimension_effects ds
                  ++ dispatch now lease_seconds max_attempts d q (ready_failures forms server i)
                      b.values (board_receipts b))
                e in
            inr (
              rw
                (
                  step,
                  apply_effects-append (dimension_effects ds)
                      (handle_claim now lease_seconds max_attempts q (ready_failures forms server i)
                        b.values (board_receipts b))
                      b,
                )
                u)
      ]
