-- ===== src/Pipeline/Kept.antt =====
-- Which rows of episode_curation_states a batch of backend/datasets/services/bronze_silver_pipeline.py may
-- change.
use robodata.Prelude.{
  ℕ, ◌+◌, Bool, true, false, ◌&&◌, ◌||◌, ◌≡◌, refl, ap, ◌∙◌, inl, inr, List, [], ◌∷◌, str_eq, any,
  Bool-cases, arith, Apart, Apart-append_one, eq_iff,
}
use robodata.Table.{
  updated, Rows-refl, Rows-update_where, Extends, Extends-append, Extends-of_Rows, Extends-refl,
  Extends-trans, Apart-Rows,
}
use robodata.Pipeline.{
  CurationRow, BronzeEpisode, has_serial, is_detected, upsert_detected, upsert_all, redetect,
  detected_row, mark_stale_processing_failed, is_stale_processing, fail_row,
}
use robodata.Pipeline.Batch.{BatchReply, complete, skipped}
use robodata.Pipeline.Settled.{is_settled}

abbrev pub same_serial : CurationRow → CurationRow → Bool
same_serial x y = str_eq x.serial_number y.serial_number

same_serial_comm : (x y : CurationRow) → same_serial x y ≡ same_serial y x
same_serial_comm x y =
    grind (arith, eq_iff x.serial_number y.serial_number, eq_iff y.serial_number x.serial_number)

-- The row of an episode that awaits no batch stays as it is; one that is detected stays so, or is ready or
-- failed.
abbrev pub Kept : CurationRow → CurationRow → Type 0
Kept x y =
    (y.serial_number ≡ x.serial_number)
    × (is_detected x.state ≡ false → y ≡ x)
    × (is_detected x.state ≡ true → is_detected y.state || is_settled y.state ≡ true)

Kept-refl : (x : CurationRow) → Kept x x
Kept-refl x = (refl, λ h. refl, λ h. ground arith)

Kept-trans : (x y z : CurationRow) → Kept x y → Kept y z → Kept x z
Kept-trans x y z (e, o, d) (e', o', d') = (
  e' ∙ e,
  λ h. o' (ap (λ w. is_detected w.state) (o h) ∙ h) ∙ o h,
  λ h. elim (Bool-cases (is_detected y.state)) [
    | inl i ↦ d' i
    | inr i ↦ ap (λ w. is_detected w.state || is_settled w.state) (o' i) ∙ d h
  ],
)

redetect-Kept :
    (now : ℕ) (e : BronzeEpisode) (x : CurationRow)
    → Kept x (updated (λ r. has_serial e.serial_number r && is_detected r.state) (redetect now e) x)
redetect-Kept now e x = elim (Bool-cases (has_serial e.serial_number x && is_detected x.state)) [
  | inl h ↦
      let d : is_detected x.state ≡ true = ground arith in
      rw h (refl, λ o. cc (o, d), λ i. ground (arith, d))
  | inr h ↦ rw h (Kept-refl x)
]

Kept-same_serial :
    (x x' y y' : CurationRow)
    → Kept x x'
    → Kept y y'
    → same_serial x' y' ≡ true
    → same_serial x y ≡ true
Kept-same_serial x x' y y' h k e = rw (← h.0, ← k.0) e

upsert_detected-Kept :
    (now : ℕ) (e : BronzeEpisode) (rows : List CurationRow)
    → Apart same_serial rows
    → Extends Kept rows (upsert_detected now e rows)
      × Apart same_serial (upsert_detected now e rows)
unfolding upsert_detected
upsert_detected-Kept now e rows apart = elim (Bool-cases (any (has_serial e.serial_number) rows)) [
  | inl h ↦
      let r =
        Rows-update_where Kept (λ r. has_serial e.serial_number r && is_detected r.state)
          (redetect now e) rows (λ x m. redetect-Kept now e x) in
      rw h (Extends-of_Rows Kept _ _ r, Apart-Rows Kept same_serial Kept-same_serial _ _ r apart)
  | inr h ↦ rw h (
    Extends-append Kept rows rows _ (Rows-refl Kept Kept-refl rows),
    Apart-append_one same_serial same_serial_comm (detected_row now e) rows apart h,
  )
]

pub upsert_all-Kept :
    (now : ℕ) (es : List BronzeEpisode) (rows : List CurationRow)
    → Apart same_serial rows
    → Extends Kept rows (upsert_all now es rows) × Apart same_serial (upsert_all now es rows)
unfolding upsert_all
upsert_all-Kept now [] rows apart = (Extends-refl Kept Kept-refl rows, apart)
upsert_all-Kept now (e ∷ es) rows apart =
    let (h, a) = upsert_detected-Kept now e rows apart in
    let (k, b) = upsert_all-Kept now es (upsert_detected now e rows) a in
    (Extends-trans Kept Kept-trans _ _ _ h k, b)

SameSerial : CurationRow → CurationRow → Type 0
SameSerial x y = y.serial_number ≡ x.serial_number

module _ (now timeout : ℕ) where
  failed-same :
      (x : CurationRow)
      → SameSerial x
          (updated (is_stale_processing now timeout) (fail_row now "silver_processing timeout") x)
  unfolding SameSerial
  failed-same x = elim (Bool-cases (is_stale_processing now timeout x)) [
    | inl h ↦ rw h refl
    | inr h ↦ rw h refl
  ]

-- The UPDATE of the stale rows.
pub stale-Apart :
    (now timeout : ℕ) (rows : List CurationRow)
    → Apart same_serial rows
    → Apart same_serial (mark_stale_processing_failed now timeout rows).1
unfolding mark_stale_processing_failed SameSerial
stale-Apart now timeout rows apart =
    Apart-Rows SameSerial same_serial (λ x x' y y' h k e. rw (← h, ← k) e) _ _
      (Rows-update_where SameSerial (is_stale_processing now timeout)
        (fail_row now "silver_processing timeout") rows (λ x m. failed-same now timeout x))
      apart

-- Each eligible episode is counted as processed or as failed.
abbrev pub Counted : BatchReply → Type 0
Counted skipped = ⊥
Counted (complete processed failed stale eligible) = processed + failed ≡ eligible
