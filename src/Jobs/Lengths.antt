-- ===== src/Jobs/Lengths.antt =====
-- The minimum lengths of the payload models in backend/datasets/services (*_payload.py).
use robodata.Prelude.{
  String, true, ◌≡◌, ◌≢◌, refl, ap, List, [], ◌∷◌, arith, Bool-cases, inl, inr, str_eq, eq_iff, ◌↔◌,
}
use robodata.Jobs.Operation.{Payload, split, merge, delete, sync_good_episodes, stamp_cycles}
use robodata.Jobs.Intake.{has_fields, is_text, is_list}

-- The fields that may not be empty are not.
abbrev pub HasFields : Payload → Type 0
HasFields (split s i t o) = (s ≢ "") × (i ≢ []) × (t ≢ "")
HasFields (merge ss t o) = (ss ≢ []) × (t ≢ "")
HasFields (delete s i o) = (s ≢ "") × (i ≢ [])
HasFields (sync_good_episodes s i d) = (s ≢ "") × (i ≢ []) × (d ≢ "")
HasFields (stamp_cycles s o) = s ≢ ""

is_text_iff : (s : String) → (is_text s ≡ true) ↔ (s ≢ "")
is_text_iff s = (
  λ h e. cc (ap is_text e, h),
  λ n. elim (Bool-cases (str_eq s "")) [
    | inl e ↦ absurd (n (ground (arith, eq_iff s "", e)))
    | inr e ↦ ground (arith, e)
  ],
)

is_list_iff {ℓ} : {A : Type ℓ} (xs : List A) → (is_list xs ≡ true) ↔ (xs ≢ [])
is_list_iff [] = (λ h e. cc h, λ n. absurd (n refl))
is_list_iff (x ∷ xs) = (λ h e. cc e, λ n. refl)

pub has_fields_iff : (p : Payload) → (has_fields p ≡ true) ↔ HasFields p
has_fields_iff (split s i t o) = (
  λ h. (
    (is_text_iff s).0 (ground arith),
    (is_list_iff i).0 (ground arith),
    (is_text_iff t).0 (ground arith),
  ),
  λ (a, b, c). ground (arith, (is_text_iff s).1 a, (is_list_iff i).1 b, (is_text_iff t).1 c),
)
has_fields_iff (merge ss t o) = (
  λ h. ((is_list_iff ss).0 (ground arith), (is_text_iff t).0 (ground arith)),
  λ (b, c). ground (arith, (is_list_iff ss).1 b, (is_text_iff t).1 c),
)
has_fields_iff (delete s i o) = (
  λ h. ((is_text_iff s).0 (ground arith), (is_list_iff i).0 (ground arith)),
  λ (a, b). ground (arith, (is_text_iff s).1 a, (is_list_iff i).1 b),
)
has_fields_iff (sync_good_episodes s i d) = (
  λ h. (
    (is_text_iff s).0 (ground arith),
    (is_list_iff i).0 (ground arith),
    (is_text_iff d).0 (ground arith),
  ),
  λ (a, b, c). ground (arith, (is_text_iff s).1 a, (is_list_iff i).1 b, (is_text_iff d).1 c),
)
has_fields_iff (stamp_cycles s o) = is_text_iff s
