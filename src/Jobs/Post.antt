-- ===== src/Jobs/Post.antt =====
-- What POST /api/jobs of backend/jobs/router.py promises.
use robodata.Prelude.{
  ℕ, String, Bool, true, false, not, ◌&&◌, ◌≡◌, refl, ap, ◌⊎◌, inl, inr, List, [], ◌∷◌, some,
  Bool-cases, arith, In, here, there,
}
use robodata.Prelude.Int.{ℤ}
use robodata.Prelude.Checked.{Checked, rejected, passed, ◌>>=◌}
use robodata.Json.{Json}
use robodata.Paths.{FileSystem}
use robodata.Jobs.{JobType}
use robodata.Jobs.Repo.{JobsTable, Request, Enqueued, added, duplicate_dedupe, unique_violation}
use robodata.Jobs.Index.{IsValid}
use robodata.Jobs.Enqueue.{Answers, enqueue_lem}
use robodata.Jobs.Operation.{
  Payload, ValidationError, Validated, is_dataset_operation, validate_dataset_operation, dedupe_key,
}
use robodata.Jobs.Canonical.{Canonical, validate_dataset_operation_lem}
use robodata.Jobs.Router.{
  EnqueueBody, PostReply, created, conversion_mutations_disabled, invalid, conflict, server_error,
  is_conversion, model_dump, reply_enqueued, validated_request, request_of, post_request, post_job,
}

abbrev pub conversions : List JobType
conversions = JobType.convert ∷ JobType.bronze_silver_batch ∷ []

abbrev pub dataset_operations : List JobType
dataset_operations =
    JobType.split ∷ JobType.merge ∷ JobType.delete ∷ JobType.sync_good_episodes
    ∷ JobType.stamp_cycles ∷ []

is_conversion-In : (y : JobType) → is_conversion y ≡ true → In y conversions
is_conversion-In JobType.convert h = here
is_conversion-In JobType.bronze_silver_batch h = there here
is_conversion-In JobType.split h = cc
is_conversion-In JobType.merge h = cc
is_conversion-In JobType.delete h = cc
is_conversion-In JobType.sync_good_episodes h = cc
is_conversion-In JobType.stamp_cycles h = cc
is_conversion-In JobType.auto_bad_camera_flicker h = cc

is_dataset_operation-In : (y : JobType) → is_dataset_operation y ≡ true → In y dataset_operations
is_dataset_operation-In JobType.split h = here
is_dataset_operation-In JobType.merge h = there here
is_dataset_operation-In JobType.delete h = there (there here)
is_dataset_operation-In JobType.sync_good_episodes h = there (there (there here))
is_dataset_operation-In JobType.stamp_cycles h = there (there (there (there here)))
is_dataset_operation-In JobType.convert h = cc
is_dataset_operation-In JobType.bronze_silver_batch h = cc
is_dataset_operation-In JobType.auto_bad_camera_flicker h = cc

no_conversion : (y : JobType) → is_conversion y ≡ false → ¬ In y conversions
no_conversion y h here = cc
no_conversion y h (there here) = cc
no_conversion y h (there (there m)) = elim m [ ]

no_operation : (y : JobType) → is_dataset_operation y ≡ false → ¬ In y dataset_operations
no_operation y h here = cc
no_operation y h (there here) = cc
no_operation y h (there (there here)) = cc
no_operation y h (there (there (there here))) = cc
no_operation y h (there (there (there (there here)))) = cc
no_operation y h (there (there (there (there (there m))))) = elim m [ ]

module _ (fs : FileSystem) (roots : List String)
    (parse : JobType → Json → Checked ValidationError Payload) (show_int : ℤ → String) where
  -- What is enqueued for the body: of a Dataset Operation the canonical form of its payload with the
  -- dedupe key of that, and of any other job what the body holds.
  abbrev pub IsRequestOf : EnqueueBody → Request → Type 0
  IsRequestOf b q =
      (q.type_ ≡ b.type_)
      × ((In b.type_ dataset_operations
            × ((parsed : Payload) × (stored : Payload) × (parse b.type_ b.payload ≡ passed parsed)
                × Canonical fs roots parsed stored
                × (q.payload ≡ model_dump stored)
                × (q.dedupe_key ≡ some (dedupe_key show_int stored))))
          ⊎ ((¬ In b.type_ dataset_operations)
              × (q.payload ≡ b.payload)
              × (q.dedupe_key ≡ b.dedupe_key)))

  abbrev pub IsInvalid : EnqueueBody → ValidationError → Type 0
  IsInvalid b e =
      In b.type_ dataset_operations
      × (validate_dataset_operation fs roots parse show_int b.type_ b.payload ≡ rejected e)

  -- What a reply to POST /api/jobs says of the body and of the table.
  abbrev pub PostSpec : Bool → EnqueueBody → JobsTable → PostReply × JobsTable → Type 0
  PostSpec enabled b t (created j, t') =
      (In b.type_ conversions → enabled ≡ true)
      × ((q : Request) × IsRequestOf b q × Answers q (added j, t'))
  PostSpec enabled b t (conflict i, t') =
      (In b.type_ conversions → enabled ≡ true)
      × ((q : Request) × IsRequestOf b q × Answers q (duplicate_dedupe i, t'))
  PostSpec enabled b t (server_error, t') =
      (In b.type_ conversions → enabled ≡ true)
      × ((q : Request) × IsRequestOf b q × Answers q (unique_violation, t'))
  PostSpec enabled b t (invalid e, t') =
      (In b.type_ conversions → enabled ≡ true) × IsInvalid b e × (t' ≡ t)
  PostSpec enabled b t (conversion_mutations_disabled, t') =
      In b.type_ conversions × (enabled ≡ false) × (t' ≡ t)

  abbrev RequestSpec : EnqueueBody → Checked ValidationError Request → Type 0
  RequestSpec b (passed q) = IsRequestOf b q
  RequestSpec b (rejected e) = IsInvalid b e

  validated-RequestSpec :
      (b : EnqueueBody) (r : Checked ValidationError Validated)
      → is_dataset_operation b.type_ ≡ true
      → validate_dataset_operation fs roots parse show_int b.type_ b.payload ≡ r
      → RequestSpec b (r >>= λ v. passed (validated_request b.type_ v))
  validated-RequestSpec b (rejected e) h k = (is_dataset_operation-In b.type_ h, k)
  validated-RequestSpec b (passed v) h k =
      let (parsed, e, c, d) =
        validate_dataset_operation_lem fs roots parse show_int b.type_ b.payload v k in
      (refl, inl (is_dataset_operation-In b.type_ h, (parsed, v.payload, e, c, refl, ap some d)))

  request_of-RequestSpec : (b : EnqueueBody) → RequestSpec b (request_of fs roots parse show_int b)
  request_of-RequestSpec b = elim (Bool-cases (is_dataset_operation b.type_)) [
    | inl h ↦ rw h (validated-RequestSpec b _ h refl)
    | inr h ↦ rw h (refl, inr (no_operation b.type_ h, refl, refl))
  ]

  reply_enqueued-PostSpec :
      (enabled : Bool) (b : EnqueueBody) (q : Request) (t : JobsTable) (x : Enqueued × JobsTable)
      → (In b.type_ conversions → enabled ≡ true)
      → IsRequestOf b q
      → IsValid x.1 × Answers q x
      → IsValid (reply_enqueued x).1 × PostSpec enabled b t (reply_enqueued x)
  reply_enqueued-PostSpec enabled b q t (added j, t') a e h = (h.0, (a, (q, e, h.1)))
  reply_enqueued-PostSpec enabled b q t (duplicate_dedupe i, t') a e h = (h.0, (a, (q, e, h.1)))
  reply_enqueued-PostSpec enabled b q t (unique_violation, t') a e h = (h.0, (a, (q, e, h.1)))

  module _ (between after : JobsTable → JobsTable)
      (between_valid : (t : JobsTable) → IsValid t → IsValid (between t))
      (after_valid : (t : JobsTable) → IsValid t → IsValid (after t)) (enabled : Bool) (now : ℕ)
      (external_id : String) (b : EnqueueBody) (t : JobsTable) where
    posted :
        (r : Checked ValidationError Request)
        → (In b.type_ conversions → enabled ≡ true)
        → RequestSpec b r
        → IsValid t
        → let x = post_request fs roots parse show_int between after now external_id t r in
          IsValid x.1 × PostSpec enabled b t x
    posted (passed q) a s v =
        reply_enqueued-PostSpec enabled b q t _ a s
          (enqueue_lem between after between_valid after_valid now external_id q t v)
    posted (rejected e) a s v = (v, (a, s, refl))

    enabled_for :
        (is_conversion b.type_ && not enabled) ≡ false → In b.type_ conversions → enabled ≡ true
    enabled_for h m = elim (Bool-cases (is_conversion b.type_)) [
      | inl c ↦ ground (arith, c, h)
      | inr c ↦ absurd (no_conversion b.type_ c m)
    ]

    -- POST /api/jobs keeps the table valid, if other sessions do. It answers 503 only for a conversion while
    -- conversions are switched off, and every other answer to a conversion means that they are on. A
    -- validation error is that of a Dataset Operation that validation refuses; in both cases nothing has
    -- changed. 201 names a row that waits: that of a Dataset Operation holds the canonical form of the
    -- payload and its dedupe key, that of any other job the payload and key of the body. 409 names the
    -- active row with that key.
    pub post_job_lem :
        IsValid t
        → let x = post_job fs roots parse show_int between after enabled now external_id b t in
          IsValid x.1 × PostSpec enabled b t x
    unfolding post_job
    post_job_lem v = elim (Bool-cases (is_conversion b.type_ && not enabled)) [
      | inl e ↦ rw e (v, (is_conversion-In b.type_ (ground arith), ground arith, refl))
      | inr e ↦ rw e (posted _ (enabled_for e) (request_of-RequestSpec b) v)
    ]
