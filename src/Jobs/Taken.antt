-- ===== src/Jobs/Taken.antt =====
-- What backend/datasets/services/operation_intake.py promises of the jobs table and of its reply.
use robodata.Prelude.{ℕ, String, ◌≡◌, refl, some}
use robodata.Prelude.Int.{ℤ}
use robodata.Prelude.Checked.{Checked, rejected, passed}
use robodata.Paths.{ResolvedPath, FileSystem}
use robodata.Jobs.{Job}
use robodata.Jobs.Repo.{JobsTable, Request, Enqueued, added, duplicate_dedupe, unique_violation}
use robodata.Jobs.Index.{IsValid}
use robodata.Jobs.Enqueue.{Answers, enqueue_lem}
use robodata.Jobs.Operation.{Payload, dedupe_key}
use robodata.Jobs.Router.{model_dump}
use robodata.Jobs.Intake.{
  IntakeError, operation, IntakeReply, enqueued, duplicate_dataset_operation, refused, failed,
  reply_of, enqueue_payload, payload_of, intake,
}
use robodata.Jobs.Located.{Taken, payload_of-Taken}

module _ (fs : FileSystem) (validate_path : String → Checked IntakeError ResolvedPath)
    (show_int : ℤ → String) where
  -- The row of a payload has its name, its fields and always its dedupe key.
  abbrev pub row_of : Payload → Request
  row_of p = record {
    type_ = operation p;
    payload = model_dump p;
    dedupe_key = some (dedupe_key show_int p);
  }

  -- What a reply of the intake says of the request and of the table.
  abbrev pub IntakeSpec : Payload → JobsTable → IntakeReply × JobsTable → Type 0
  IntakeSpec req t (enqueued e y, t') =
      (p : Payload) × (j : Job) × Taken fs validate_path req p
      × (j.external_id ≡ e)
      × (j.type_ ≡ y)
      × Answers (row_of p) (added j, t')
  IntakeSpec req t (duplicate_dataset_operation i, t') =
      (p : Payload) × Taken fs validate_path req p × Answers (row_of p) (duplicate_dedupe i, t')
  IntakeSpec req t (failed, t') =
      (p : Payload) × Taken fs validate_path req p × Answers (row_of p) (unique_violation, t')
  IntakeSpec req t (refused e, t') = (t' ≡ t) × ((p : Payload) → ¬ Taken fs validate_path req p)

  module _ (between after : JobsTable → JobsTable)
      (between_valid : (t : JobsTable) → IsValid t → IsValid (between t))
      (after_valid : (t : JobsTable) → IsValid t → IsValid (after t)) (now : ℕ)
      (external_id : String) (req : Payload) (t : JobsTable) where
    reply_of-IntakeSpec :
        (p : Payload) (x : Enqueued × JobsTable)
        → Taken fs validate_path req p
        → IsValid x.1 × Answers (row_of p) x
        → IsValid (reply_of fs validate_path x).1 × IntakeSpec req t (reply_of fs validate_path x)
    reply_of-IntakeSpec p (added j, t') k h = (h.0, (p, j, k, refl, refl, h.1))
    reply_of-IntakeSpec p (duplicate_dedupe i, t') k h = (h.0, (p, k, h.1))
    reply_of-IntakeSpec p (unique_violation, t') k h = (h.0, (p, k, h.1))

    enqueued-IntakeSpec :
        (c : Checked IntakeError Payload)
        → payload_of fs validate_path req ≡ c
        → IsValid t
        → let x = enqueue_payload fs validate_path between after show_int now external_id c t in
          IsValid x.1 × IntakeSpec req t x
    enqueued-IntakeSpec (rejected e) k v =
        (v, (refl, λ p h. cc ((payload_of-Taken fs validate_path req p).1 h, k)))
    enqueued-IntakeSpec (passed p) k v =
        reply_of-IntakeSpec p _ ((payload_of-Taken fs validate_path req p).0 k)
          (enqueue_lem between after between_valid after_valid now external_id (row_of p) t v)

    -- The intake keeps the jobs table valid, if other sessions do. A request is refused only where no payload
    -- fits it: a path that is not valid, a source that is not there, a sync onto its source, or an empty field
    -- that may not be empty; then nothing has changed. Otherwise the payload has the paths that the
    -- validation gives. An enqueued request has a row that waits, with the reply's external id, the payload
    -- and its dedupe key; a duplicate names the active row with that key.
    pub intake_lem :
        IsValid t
        → let x = intake fs validate_path between after show_int now external_id req t in
          IsValid x.1 × IntakeSpec req t x
    unfolding intake
    intake_lem v = enqueued-IntakeSpec (payload_of fs validate_path req) refl v
