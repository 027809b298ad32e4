-- ===== src/Jobs/Agree.antt =====
-- The two ways in for Dataset Operations, backend/datasets/services/operation_intake.py and
-- backend/jobs/dataset_operation_validation.py, accept the same requests with the same payloads.
use robodata.Prelude.{Option, none, some}
use robodata.Prelude.Checked.{Checked, rejected, passed}
use robodata.Jobs.Located.{Located}

-- What a check lets through.
abbrev pub accepted : {E A : Type 0} → Checked E A → Option A
accepted (rejected e) = none
accepted (passed a) = some a
