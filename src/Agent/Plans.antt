-- ===== src/Agent/Plans.antt =====
-- .github/scripts/agent_control.py: each handler's calls keep an issue's live claims with one key.
use robodata.Prelude.{
  ℕ, ◌+◌, String, true, false, ◌||◌, ◌≡◌, refl, ap, ◌∙◌, inl, inr, List, [], ◌∷◌, Option, none,
  some, All, Bool-cases, arith, eq_iff,
}
use robodata.Prelude.Checked.{Checked, passed}
use robodata.Agent.Ready.{ReadyError}
use robodata.Agent.{
  Command, ready, claim, heartbeat, block, release, complete, ReceiptResult, accepted, rejected,
  Status, blocked, ControlError, attempt_limit, another_live, another_run, uncaught, bad_timestamp,
  incomplete_fields, finalized, already_rejected, not_claimable, live_until, Reason, told, control,
  ControlRequest, ClaimState, Key, Values, Mark, grants, mark_of, is_live, isoformat_utc,
  claim_from_fields,
}
use robodata.Agent.Controller.{
  Board, Effect, set_status, rejection, lease_receipt, ready_checked, handle_ready, refused, lapse,
  owns, mismatch, dimension_effects, held_command, handle_held, is_leased, is_held,
}
use robodata.Agent.Live.{is_active}
use robodata.Agent.Fields.{Records, claim_from_fields-Records}
use robodata.Agent.Safe.{OfKey, Knows, Held, Static, Keyed, SafeRun, Static-SafeRun, Keyed-SafeRun}

-- The calls keep the order from any board that the board leads to by changing its dimensions.
abbrev pub Runs : ℕ → Board → List Effect → Type 0
Runs now b es =
    (k : Key) × Held now k b
    × ((c : Board) → Held now k c → (Knows k b.values → Knows k c.values) → SafeRun now k c es)

pub Static-Runs :
    (now : ℕ) (k : Key) (b : Board) (es : List Effect)
    → Held now k b
    → All (Static k) es
    → Runs now b es
Static-Runs now k b es h p = (k, h, λ c i f. Static-SafeRun now k es c p i)

pub Keyed-Runs :
    (now : ℕ) (k : Key) (b : Board) (es : List Effect)
    → Held now k b
    → Knows k b.values
    → All (Keyed k) es
    → Runs now b es
Keyed-Runs now k b es h n p = (k, h, λ c i f. Keyed-SafeRun now k es c p (f n) i)

-- What is asked of a receipt that neither grants nor extends a claim.
pub passive :
    {A B : Type 0} (m : Mark) → is_active m ≡ false → (is_active m ≡ true → A) × (m ≡ grants → B)
passive m h = (λ a. cc, λ g. cc (ap is_active g, h))

pub rejected_passive : (c : Command) → is_active (mark_of (some c) (some rejected)) ≡ false
unfolding mark_of
rejected_passive ready = refl
rejected_passive claim = refl
rejected_passive heartbeat = refl
rejected_passive block = refl
rejected_passive release = refl
rejected_passive complete = refl

module _ (k : Key) where
  pub dimensions-Static : (ds : List (String × String)) → All (Static k) (dimension_effects ds)
  dimensions-Static [] = tt
  dimensions-Static (d ∷ ds) = (tt, dimensions-Static ds)

  pub lapse-Static : (q : ControlRequest) (why : Reason) → All (Static k) (lapse q why)
  lapse-Static q why =
      (tt, (inl refl, (inl refl, (refl, (passive _ (rejected_passive q.command), tt)))))

  ready_checked-Static :
      (q : ControlRequest) (fails : Option (List ReadyError))
      → q.command ≡ ready
      → All (Static k) (ready_checked q fails)
  unfolding mark_of
  ready_checked-Static q none e = tt
  ready_checked-Static q (some (x ∷ xs)) e = (tt, (passive _ (rejected_passive q.command), tt))
  ready_checked-Static q (some []) e = (
    tt,
    (
      inl refl,
      (
        inl refl,
        (refl, (tt, (passive (mark_of (some q.command) (some accepted)) (rw e refl), tt))),
      ),
    ),
  )

  pub handle_ready-Static :
      (now : ℕ) (q : ControlRequest) (fails : Option (List ReadyError)) (v : Values)
      (m : Checked ControlError (Option ClaimState))
      → q.command ≡ ready
      → All (Static k) (handle_ready now q fails v m)
  unfolding handle_ready
  handle_ready-Static now q fails v (Checked.rejected x) e =
      (tt, (passive _ (rejected_passive q.command), tt))
  handle_ready-Static now q fails v (passed o) e =
      elim (Bool-cases (is_leased v.status || is_held now o)) [
        | inl t ↦ rw t (passive _ (rejected_passive q.command), tt)
        | inr t ↦ rw t (ready_checked-Static q fails e)
      ]

  pub refused-Static : (q : ControlRequest) (e : ControlError) → All (Static k) (refused q e)
  refused-Static q uncaught = tt
  refused-Static q (attempt_limit n) = (tt, (passive _ (rejected_passive q.command), tt))
  refused-Static q bad_timestamp = (passive _ (rejected_passive q.command), tt)
  refused-Static q incomplete_fields = (passive _ (rejected_passive q.command), tt)
  refused-Static q another_run = (passive _ (rejected_passive q.command), tt)
  refused-Static q another_live = (passive _ (rejected_passive q.command), tt)
  refused-Static q finalized = (passive _ (rejected_passive q.command), tt)
  refused-Static q already_rejected = (passive _ (rejected_passive q.command), tt)
  refused-Static q (not_claimable s) = (passive _ (rejected_passive q.command), tt)
  refused-Static q (live_until t) = (passive _ (rejected_passive q.command), tt)

  -- A receipt with the key's IDs, an attempt and a lease.
  pub lease_receipt-Static :
      (c : Command) (res : ReceiptResult) (x y : Option String) (a t : ℕ) (s : Option Status)
      → x ≡ some k.claim_id
      → y ≡ some k.run_id
      → Static k (lease_receipt c res x y a t s)
  unfolding isoformat_utc
  lease_receipt-Static c res x y a t s p q = (λ i. (p, q), λ g. (a, _, refl, refl))

  -- Neither a heartbeat nor a claim.
  held_command-Keyed :
      (now lease_seconds max_attempts : ℕ) (d : Command) (q : ControlRequest) (s : Option Status)
      (c : ClaimState)
      → q.command ≡ d
      → q.claim_id ≡ some k.claim_id
      → q.run_id ≡ some k.run_id
      → All (Keyed k) (held_command now lease_seconds max_attempts d q s c)
  unfolding mark_of
  held_command-Keyed now l n heartbeat q s c e x y = (
    tt,
    (lease_receipt-Static heartbeat accepted q.claim_id q.run_id c.attempt (now + l) s x y, tt),
  )
  held_command-Keyed now l n block q s c e x y = (
    tt,
    (
      inl refl,
      (inl refl, (tt, (passive (mark_of (some q.command) (some accepted)) (rw e refl), tt))),
    ),
  )
  held_command-Keyed now l n release q s c e x y = (
    tt,
    (
      inl refl,
      (inl refl, (tt, (passive (mark_of (some q.command) (some accepted)) (rw e refl), tt))),
    ),
  )
  held_command-Keyed now l n ready q s c e x y = tt
  held_command-Keyed now l n claim q s c e x y = tt
  held_command-Keyed now l n complete q s c e x y = tt

owned-Eq :
    (x y : Option String) (c : ClaimState)
    → owns x y c ≡ true
    → (x ≡ some c.claim_id) × (y ≡ some c.run_id)
owned-Eq none y c h = cc
owned-Eq (some x) none c h = cc
owned-Eq (some x) (some y) c h =
    (ground (arith, eq_iff c.claim_id x), ground (arith, eq_iff c.run_id y))

key-Eq : (o : Option String) (s t : String) → o ≡ some s → OfKey o t → s ≡ t
key-Eq o s t e (inl n) = cc
key-Eq o s t e (inr n) = ground arith

abbrev late : Reason
late = told "Lease has expired; a new attempt is required."

module _ (now lease_seconds max_attempts : ℕ) where
  -- A live claim in the fields is of the key.
  pub live-Knows :
      (k : Key) (b : Board) (c : ClaimState)
      → Held now k b
      → claim_from_fields b.values ≡ passed (some c)
      → is_live now c ≡ true
      → Knows k b.values × ((c.claim_id ≡ k.claim_id) × (c.run_id ≡ k.run_id))
  unfolding is_live
  live-Knows k b c h f l = elim (claim_from_fields-Records b.values (some c) f) [
    | inl (y, q, r) ↦
        let e : y ≡ c = ground arith in
        let s : Records b.values c = rw (← e) r in
        let (i, j) = h.fields c.lease_until s.of_lease l in
        (
          (i, j),
          (
            key-Eq b.values.claim_id c.claim_id k.claim_id s.of_claim i,
            key-Eq b.values.run_id c.run_id k.run_id s.of_run j,
          ),
        )
    | inr (q, n) ↦ cc
  ]

  held_command-Runs :
      (k : Key) (q : ControlRequest) (b : Board) (c : ClaimState)
      → Held now k b
      → claim_from_fields b.values ≡ passed (some c)
      → is_live now c ≡ true
      → owns q.claim_id q.run_id c ≡ true
      → Runs now b (held_command now lease_seconds max_attempts q.command q b.values.status c)
  held_command-Runs k q b c h f l o =
      let (n, (i, j)) = live-Knows k b c h f l in
      let (x, y) = owned-Eq q.claim_id q.run_id c o in
      Keyed-Runs now k b (held_command now lease_seconds max_attempts q.command q b.values.status c)
        h n
        (held_command-Keyed k now lease_seconds max_attempts q.command q b.values.status c refl
          (x ∙ ap some i) (y ∙ ap some j))

  pub handle_held-Runs :
      (k : Key) (q : ControlRequest) (b : Board) (m : Checked ControlError (Option ClaimState))
      → Held now k b
      → claim_from_fields b.values ≡ m
      → Runs now b (handle_held now lease_seconds max_attempts q b.values m)
  unfolding handle_held
  handle_held-Runs k q b (Checked.rejected e) h f =
      Static-Runs now k b (set_status (some blocked) ∷ rejection q (control e) (some blocked) ∷ [])
        h (tt, (passive _ (rejected_passive q.command), tt))
  handle_held-Runs k q b (passed none) h f =
      Static-Runs now k b (mismatch q) h (passive _ (rejected_passive q.command), tt)
  handle_held-Runs k q b (passed (some c)) h f = elim (Bool-cases (owns q.claim_id q.run_id c)) [
    | inl o ↦ elim (Bool-cases (is_live now c)) [
      | inl l ↦ rw (o, l) (held_command-Runs k q b c h f l o)
      | inr l ↦ rw (o, l) (Static-Runs now k b (lapse q late) h (lapse-Static k q late))
    ]
    | inr o ↦ rw o (Static-Runs now k b (mismatch q) h (passive _ (rejected_passive q.command), tt))
  ]
