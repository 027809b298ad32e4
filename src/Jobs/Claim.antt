-- ===== src/Jobs/Claim.antt =====
-- What `claim_next` of backend/jobs/lifecycle.py hands out.
use robodata.Prelude.{
  ℕ, ◌≤◌, String, Bool, true, false, ◌≡◌, ◌≢◌, refl, ap, ◌⊎◌, List, Option, none, some, arith, In,
  Apart, Apart-same, In-keep, keep-nil, All, any, keep, Bool-cases, Option-cases, inl, inr,
}
use robodata.Table.{
  Rows, Rows-update_where, first_by, first_by-In, first_by-least, first_by-none, updated,
}
use robodata.Jobs.{JobType, Job, has_id}
use robodata.Jobs.Lifecycle.{Claimed, claimed_row, claimable, start, claim_next}
use robodata.Jobs.History.{same_id, same_id_comm}

-- The claimed row is started; every other row, of another number, is as it was.
abbrev pub Started : ℕ → String → Job → Job → Job → Type 0
Started now worker j x y = ((x ≡ j) × (y ≡ start now worker j)) ⊎ ((x.id ≢ j.id) × (y ≡ x))

module _ (locked : Job → Bool) (now : ℕ) (worker : String) (types : List JobType)
    (jobs : List Job) where
  abbrev pub ClaimSpec : Option Claimed × List Job → Type 0
  ClaimSpec (none, jobs') = (any (claimable locked types) jobs ≡ false) × (jobs' ≡ jobs)
  ClaimSpec (some c, jobs') =
      (j : Job) × In j jobs
      × (c ≡ claimed_row j)
      × (claimable locked types j ≡ true)
      × All (λ k. j.created_at ≤ k.created_at) (keep (claimable locked types) jobs)
      × Rows (Started now worker j) jobs jobs'

  started :
      (j x : Job)
      → Apart same_id jobs
      → In j jobs
      → In x jobs
      → Started now worker j x (updated (has_id j.id) (start now worker) x)
  started j x ids m n = elim (Bool-cases (has_id j.id x)) [
    | inl e ↦
        let q : x ≡ j = Apart-same same_id same_id_comm jobs ids n m (ground arith) in
        rw e (inl (q, ap (start now worker) q))
    | inr e ↦ rw e (inr (ground arith, refl))
  ]

  -- `claim_next` takes, of the waiting rows of the given types that no other transaction has locked, one
  -- that was created first, starts it for the worker and leaves every other row as it was; it takes none
  -- exactly if there is none.
  pub claim_next_lem : Apart same_id jobs → ClaimSpec (claim_next locked now worker types jobs)
  unfolding claim_next
  claim_next_lem ids =
      let queue = keep (claimable locked types) jobs in
      let key = λ (k : Job). k.created_at in
      elim (Option-cases (first_by key queue)) [
        | inl e ↦ rw e (keep-nil (claimable locked types) jobs (first_by-none key queue e), refl)
        | inr (j, e) ↦
            let (m, t) = In-keep (claimable locked types) jobs (first_by-In key queue e) in
            rw e (
              j,
              m,
              refl,
              t,
              first_by-least key queue e,
              Rows-update_where (Started now worker j) (has_id j.id) (start now worker) jobs
                  (λ x n. started j x ids m n),
            )
      ]
