-- ===== src/Agent/Live.antt =====
-- The receipts of .github/scripts/agent_control.py: which claims live_receipt_claims finds live.
use robodata.Prelude.{
  ℕ, String, Bool, true, false, ◌≡◌, refl, ◌⊎◌, inl, inr, List, [], ◌∷◌, ◌++◌, map, Option, none,
  some, Bool-cases, In, here, there, In-cons, In-keep, arith, eq_refl,
}
use robodata.Agent.{
  Timestamp, instant, unreadable, ClaimState, Key, Receipt, is_live, Mark, grants, extends, ends,
  denies, passes_by, receipt_mark, held_by, put_claim, granted, extend_claim, extended,
  reduce_marked, reduce_keyed, reduce_receipts,
}

pub reduce_receipts-append :
    (rs : List Receipt) (r : Receipt) (cs : List ClaimState)
    → reduce_receipts (rs ++ r ∷ []) cs ≡ reduce_keyed r.claim_id r.run_id r (reduce_receipts rs cs)
unfolding reduce_receipts
reduce_receipts-append [] r cs = refl
reduce_receipts-append (q ∷ rs) r cs = reduce_receipts-append rs r _

pub In-put_claim :
    (k : Key) (x : ClaimState) (ds : List ClaimState) {c : ClaimState}
    → In c (put_claim k x ds)
    → (c ≡ x) ⊎ In c ds
unfolding put_claim
In-put_claim k x [] m = In-cons m
In-put_claim k x (d ∷ ds) m = elim (Bool-cases (held_by k d)) [
  | inl h ↦ elim (In-cons (rw h at m)) [ inl e ↦ inl e | inr i ↦ inr (there i) ]
  | inr h ↦ elim (In-cons (rw h at m)) [
    | inl e ↦ inr (rw e here)
    | inr i ↦ elim (In-put_claim k x ds i) [ inl e ↦ inl e | inr j ↦ inr (there j) ]
  ]
]

pub of_map :
    (f : ClaimState → ClaimState) (ds : List ClaimState) {c : ClaimState}
    → In c (map f ds)
    → (d : ClaimState) × In d ds × (c ≡ f d)
of_map f [] m = elim m [ ]
of_map f (d ∷ ds) m = elim (In-cons m) [
  | inl e ↦ (d, here, e)
  | inr i ↦ let (x, j, q) = of_map f ds i in (x, there j, q)
]

-- Every live claim of the list has the key.
abbrev pub AllHeld : ℕ → Key → List ClaimState → Type 0
AllHeld now k cs = (c : ClaimState) → In c cs → is_live now c ≡ true → held_by k c ≡ true

abbrev pub is_active : Mark → Bool
is_active grants = true
is_active extends = true
is_active _ = false

module _ (now : ℕ) (k : Key) where
  granted-AllHeld :
      (a : Option ℕ) (l : Option Timestamp) (cs : List ClaimState)
      → AllHeld now k cs
      → AllHeld now k (granted k a l cs)
  granted-AllHeld (some a) (some (instant t)) cs h = λ c m v. elim (In-put_claim k _ cs m) [
    | inl e ↦ rw e (ground (arith, eq_refl k.claim_id, eq_refl k.run_id))
    | inr i ↦ h c i v
  ]
  granted-AllHeld (some a) (some (unreadable s)) cs h = h
  granted-AllHeld (some a) none cs h = h
  granted-AllHeld none l cs h = h

  extended-AllHeld :
      (l : Option Timestamp) (cs : List ClaimState)
      → AllHeld now k cs
      → AllHeld now k (extended k l cs)
  extended-AllHeld none cs h = h
  extended-AllHeld (some (unreadable s)) cs h = h
  extended-AllHeld (some (instant t)) cs h = λ c m v.
      let (d, i, e) = of_map (extend_claim k t) cs m in
      elim (Bool-cases (held_by k d)) [
        | inl o ↦ let q : c ≡ record d { lease_until = t } = rw o at e in rw q o
        | inr o ↦ let q : c ≡ d = rw o at e in rw q (h d i (rw (← q) v))
      ]

  reduce_marked-AllHeld :
      (m : Mark) (j : Key) (r : Receipt) (cs : List ClaimState)
      → (is_active m ≡ true → j ≡ k)
      → AllHeld now k cs
      → AllHeld now k (reduce_marked m j r cs)
  reduce_marked-AllHeld grants j r cs f h =
      rw (f refl) (granted-AllHeld r.attempt r.lease_until cs h)
  reduce_marked-AllHeld extends j r cs f h = rw (f refl) (extended-AllHeld r.lease_until cs h)
  reduce_marked-AllHeld ends j r cs f h = λ c m. h c (In-keep _ cs m).0
  reduce_marked-AllHeld denies j r cs f h = h
  reduce_marked-AllHeld passes_by j r cs f h = h

  reduce_keyed-AllHeld :
      (o p : Option String) (r : Receipt) (cs : List ClaimState)
      → (is_active (receipt_mark r) ≡ true → (o ≡ some k.claim_id) × (p ≡ some k.run_id))
      → AllHeld now k cs
      → AllHeld now k (reduce_keyed o p r cs)
  reduce_keyed-AllHeld none p r cs f h = h
  reduce_keyed-AllHeld (some c) none r cs f h = h
  reduce_keyed-AllHeld (some c) (some q) r cs f h =
      reduce_marked-AllHeld (receipt_mark r) (record { claim_id = c; run_id = q }) r cs
        (λ a. let (e, d) = f a in ground arith) h

-- A receipt that grants or extends a claim is of this key.
abbrev pub Fits : Key → Receipt → Type 0
Fits k r =
    is_active (receipt_mark r) ≡ true → (r.claim_id ≡ some k.claim_id) × (r.run_id ≡ some k.run_id)

-- A receipt of the key keeps every live claim with that key.
pub append-AllHeld :
    (now : ℕ) (k : Key) (rs : List Receipt) (r : Receipt)
    → Fits k r
    → AllHeld now k (reduce_receipts rs [])
    → AllHeld now k (reduce_receipts (rs ++ r ∷ []) [])
append-AllHeld now k rs r f h =
    rw (reduce_receipts-append rs r []) (reduce_keyed-AllHeld now k r.claim_id r.run_id r _ f h)
