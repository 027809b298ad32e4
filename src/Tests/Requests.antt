-- ===== src/Tests/Requests.antt =====
-- Path policy, validation of Dataset Operations and POST /api/jobs, over a file system in which every path
-- of a text other than "root" is a directory of that name in /data.
use robodata.Prelude.{String, ◌≡◌, refl, List, [], ◌∷◌, none, true, false, str_eq, if◌then◌else◌}
use robodata.Prelude.Int.{ℤ}
use robodata.Prelude.Checked.{Checked, rejected, passed}
use robodata.Json.{Json, null, obj, end}
use robodata.Paths.{
  ResolvedPath, FileSystem, require_contained_in_roots, PolicySpec, require_contained_in_roots_lem,
  contains,
}
use robodata.Jobs.{JobType}
use robodata.Jobs.Repo.{JobsTable}
use robodata.Jobs.Index.{IsValid}
use robodata.Jobs.Operation.{
  ValidationError, Payload, stamp_cycles, merge, Validated, validate_dataset_operation, dedupe_key,
}
use robodata.Jobs.Canonical.{Canonical, validate_dataset_operation_lem}
use robodata.Jobs.Intake.{IntakeError, validation_error, located, payload_of, intake}
use robodata.Jobs.Taken.{IntakeSpec, intake_lem}
use robodata.Jobs.Router.{EnqueueBody, post_job}
use robodata.Jobs.Post.{PostSpec, post_job_lem}

abbrev in_data : FileSystem
in_data = record {
  resolve = λ s. if str_eq s "root" then "data" ∷ [] else "data" ∷ s ∷ [];
  exists = λ p. true;
  show = λ p. elim p [ [] ↦ "" | x ∷ r ↦ elim r [ [] ↦ "/data" | y ∷ q ↦ y ] ];
}

abbrev roots : List String
roots = "root" ∷ []

abbrev show_int : ℤ → String
show_int i = "7"

abbrev parse : JobType → Json → Checked ValidationError Payload
parse t raw = passed (stamp_cycles "a" true)

sibling_is_outside : contains ("data2" ∷ "x" ∷ []) ("data" ∷ []) ≡ false
sibling_is_outside = refl

require_contained_in_roots_lem_example :
    PolicySpec
      ("data" ∷ "a" ∷ [])
      (("data" ∷ []) ∷ [])
      (require_contained_in_roots in_data "a" roots)
require_contained_in_roots_lem_example = require_contained_in_roots_lem in_data "a" roots

abbrev stamped : Validated
stamped = record { payload = stamp_cycles "a" true; key = "stamp_cycles:a" }

validate_dataset_operation_lem_example :
    (parsed : Payload) × (parse JobType.stamp_cycles null ≡ passed parsed)
    × Canonical in_data roots parsed stamped.payload
    × (stamped.key ≡ dedupe_key show_int stamped.payload)
unfolding validate_dataset_operation dedupe_key
validate_dataset_operation_lem_example =
    validate_dataset_operation_lem in_data roots parse show_int JobType.stamp_cycles null stamped
      refl

abbrev body : EnqueueBody
body = record { type_ = JobType.stamp_cycles; payload = obj end; dedupe_key = none }

abbrev empty_table : JobsTable
empty_table = record { rows = []; next_id = 1 }

post_job_lem_example :
    IsValid (post_job in_data roots parse show_int (λ t. t) (λ t. t) true 5 "u1" body empty_table).1
    × PostSpec in_data roots parse show_int true body empty_table
        (post_job in_data roots parse show_int (λ t. t) (λ t. t) true 5 "u1" body empty_table)
post_job_lem_example =
    post_job_lem in_data roots parse show_int (λ t. t) (λ t. t) (λ t v. v) (λ t v. v) true 5 "u1"
      body empty_table (record { ids = tt; below = tt; slots = tt; externals = tt })

abbrev resolved : String → Checked IntakeError ResolvedPath
resolved s = passed (in_data.resolve s)

-- Every path of the file system below is below the root.
abbrev below_data : FileSystem
below_data = record in_data { show = λ p. "/data" }

-- An empty list of sources is refused, and so is an empty name.
no_sources :
    payload_of in_data resolved (merge [] "m" none)
    ≡ rejected (validation_error (merge [] "m" none))
unfolding payload_of located
no_sources = refl

intake_lem_example :
    let x =
      intake in_data resolved
        (λ t. t)
        (λ t. t)
        show_int
        5
        "u1"
        (stamp_cycles "a" true)
        empty_table in
    IsValid x.1 × IntakeSpec in_data resolved show_int (stamp_cycles "a" true) empty_table x
intake_lem_example =
    intake_lem in_data resolved show_int (λ t. t) (λ t. t) (λ t v. v) (λ t v. v) 5 "u1"
      (stamp_cycles "a" true) empty_table
      (record { ids = tt; below = tt; slots = tt; externals = tt })
