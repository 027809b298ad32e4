-- ===== src/Agent/Matching.antt =====
-- The receipts of .github/scripts/agent_control.py: matching_claim_receipt against live_receipt_claims.
use robodata.Prelude.{
  ℕ, String, true, false, not, ◌&&◌, ◌≡◌, refl, ap, inl, inr, List, [], ◌∷◌, map, Option, none,
  some, keep, Bool-cases, In, here, there, In-cons, In-map, keep-In, arith, All, eq_refl, eq_iff,
}
use robodata.Prelude.Checked.{passed, bind-passed}
use robodata.Agent.{
  Timestamp, instant, unreadable, ClaimState, Key, Receipt, Mark, grants, extends, ends, denies,
  passes_by, receipt_mark, of_request, opt_eq, match_marked, match_receipts, extended_by,
  matching_claim_receipt, held_by, put_claim, granted, extend_claim, extended, reduce_marked,
  reduce_keyed, reduce_receipts,
}

-- A pending or accepted claim receipt has its attempt and a timestamp.
abbrev pub WellFormed : Receipt → Type 0
WellFormed r =
    receipt_mark r ≡ grants
    → (a : ℕ) × (t : ℕ) × (r.attempt ≡ some a) × (r.lease_until ≡ some (instant t))

-- A claim of the list is the one that a receipt tells of.
abbrev pub Told : Key → Receipt → ClaimState → Type 0
Told k e c =
    (held_by k c ≡ true)
    × (e.attempt ≡ some c.attempt)
    × ((t : ℕ) → e.lease_until ≡ some (instant t) → c.lease_until ≡ t)

abbrev pub Tracks : Key → List ClaimState → Option Receipt → Type 0
Tracks k cs none = Unit
Tracks k cs (some e) = (c : ClaimState) × In c cs × Told k e c

In-put_claim_new : (k : Key) (x : ClaimState) (ds : List ClaimState) → In x (put_claim k x ds)
unfolding put_claim
In-put_claim_new k x [] = here
In-put_claim_new k x (d ∷ ds) = elim (Bool-cases (held_by k d)) [
  | inl h ↦ rw h here
  | inr h ↦ rw h (there (In-put_claim_new k x ds))
]

In-put_claim_other :
    (j : Key) (x : ClaimState) (ds : List ClaimState) {c : ClaimState}
    → held_by j c ≡ false
    → In c ds
    → In c (put_claim j x ds)
unfolding put_claim
In-put_claim_other j x [] o m = elim m [ ]
In-put_claim_other j x (d ∷ ds) o m = elim (Bool-cases (held_by j d)) [
  | inl h ↦ rw h (elim (In-cons m) [ inl e ↦ cc (h, o, ap (held_by j) e) | inr i ↦ there i ])
  | inr h ↦
      rw h (elim (In-cons m) [ inl e ↦ rw e here | inr i ↦ there (In-put_claim_other j x ds o i) ])
]

module _ (j : Key) {c : ClaimState} (o : held_by j c ≡ false) where
  granted_other-In :
      (a : Option ℕ) (l : Option Timestamp) (cs : List ClaimState)
      → In c cs
      → In c (granted j a l cs)
  granted_other-In (some a) (some (instant t)) cs i = In-put_claim_other j _ cs o i
  granted_other-In (some a) (some (unreadable s)) cs i = i
  granted_other-In (some a) none cs i = i
  granted_other-In none l cs i = i

  extended_other-In :
      (l : Option Timestamp) (cs : List ClaimState) → In c cs → In c (extended j l cs)
  extended_other-In none cs i = i
  extended_other-In (some (unreadable s)) cs i = i
  extended_other-In (some (instant t)) cs i =
      let e : extend_claim j t c ≡ c = rw o refl in rw e at (In-map (extend_claim j t) cs i)

  -- A receipt of another key leaves the claim in the list.
  reduce_other-In :
      (m : Mark) (r : Receipt) (cs : List ClaimState) → In c cs → In c (reduce_marked m j r cs)
  reduce_other-In grants r cs i = granted_other-In r.attempt r.lease_until cs i
  reduce_other-In extends r cs i = extended_other-In r.lease_until cs i
  reduce_other-In ends r cs i = keep-In _ cs i (ap not o)
  reduce_other-In denies r cs i = i
  reduce_other-In passes_by r cs i = i

module _ (k : Key) where
  other_key :
      (c : ClaimState) (i q : String)
      → held_by k c ≡ true
      → opt_eq (some i) k.claim_id && opt_eq (some q) k.run_id ≡ false
      → held_by (record { claim_id = i; run_id = q }) c ≡ false
  other_key c i q h o = ground (
    arith,
    eq_iff i k.claim_id,
    eq_iff q k.run_id,
    eq_iff c.claim_id k.claim_id,
    eq_iff c.run_id k.run_id,
    eq_iff c.claim_id i,
    eq_iff c.run_id q,
  )

  Told-other :
      (r e : Receipt) (x y : Option String) (cs : List ClaimState) (c : ClaimState)
      → opt_eq x k.claim_id && opt_eq y k.run_id ≡ false
      → In c cs
      → Told k e c
      → Tracks k (reduce_keyed x y r cs) (some e)
  Told-other r e none y cs c o i t = (c, i, t)
  Told-other r e (some x) none cs c o i t = (c, i, t)
  Told-other r e (some x) (some y) cs c o i t = (
    c,
    reduce_other-In (record { claim_id = x; run_id = y }) (other_key c x y t.0 o) (receipt_mark r) r
        cs i,
    t,
  )

  reduce_other-Tracks :
      (r : Receipt) (o : Option Receipt) (cs : List ClaimState)
      → of_request k r ≡ false
      → Tracks k cs o
      → Tracks k (reduce_keyed r.claim_id r.run_id r cs) o
  reduce_other-Tracks r none cs n h = tt
  reduce_other-Tracks r (some e) cs n (c, i, t) = Told-other r e r.claim_id r.run_id cs c n i t

  extended-Told :
      (r d : Receipt) (l : Option Timestamp) (cs : List ClaimState) (c : ClaimState)
      → r.lease_until ≡ l
      → In c cs
      → Told k d c
      → Tracks k (extended k l cs) (some (extended_by r d))
  extended-Told r d none cs c q i t = (c, i, (t.0, t.1, λ x e. let f = rw q at e in cc))
  extended-Told r d (some (unreadable s)) cs c q i t =
      (c, i, (t.0, t.1, λ x e. let f = rw q at e in cc))
  extended-Told r d (some (instant x)) cs c q i t =
      let m : In (record c { lease_until = x }) (map (extend_claim k x) cs) =
        rw t.0 at (In-map (extend_claim k x) cs i) in
      (record c { lease_until = x }, m, (t.0, t.1, λ y e. let f = rw q at e in ground arith))

  marked-Tracks :
      (m : Mark) (r : Receipt) (o : Option Receipt) (p : Option Receipt) (cs : List ClaimState)
      → (m ≡ grants → (a : ℕ) × (t : ℕ) × (r.attempt ≡ some a) × (r.lease_until ≡ some (instant t)))
      → match_marked m r o ≡ passed p
      → Tracks k cs o
      → Tracks k (reduce_marked m k r cs) p
  marked-Tracks grants r o p cs w e h =
      let (a, t, ea, el) = w refl in
      let q : some r ≡ p = cc in
      let c : ClaimState = record {
        claim_id = k.claim_id;
        run_id = k.run_id;
        attempt = a;
        lease_until = t;
      } in
      let m : In c (granted k r.attempt r.lease_until cs) = rw (ea, el) (In-put_claim_new k c cs) in
      rw (← q) (
        c,
        m,
        (
          ground (arith, eq_refl k.claim_id, eq_refl k.run_id),
          ea,
          λ y f. let g = rw el at f in ground arith,
        ),
      )
  marked-Tracks extends r none p cs w e h = let q : none ≡ p = cc in rw (← q) tt
  marked-Tracks extends r (some d) p cs w e (c, i, t) =
      let q : some (extended_by r d) ≡ p = cc in
      rw (← q) (extended-Told r d r.lease_until cs c refl i t)
  marked-Tracks ends r o p cs w e h = cc
  marked-Tracks denies r o p cs w e h = cc
  marked-Tracks passes_by r o p cs w e h = let q : o ≡ p = cc in rw (← q) h

  opt_eq-some : (o : Option String) (s : String) → opt_eq o s ≡ true → o ≡ some s
  opt_eq-some none s h = cc
  opt_eq-some (some x) s h = ap some ((eq_iff x s).0 h)

  reduce_own :
      (r : Receipt) (cs : List ClaimState)
      → of_request k r ≡ true
      → reduce_keyed r.claim_id r.run_id r cs ≡ reduce_marked (receipt_mark r) k r cs
  reduce_own r cs h = rw (
    opt_eq-some r.claim_id k.claim_id (ground arith),
    opt_eq-some r.run_id k.run_id (ground arith),
  )

  -- The receipt that the fold ends with tells of a claim that the other fold ends with.
  match_receipts-Tracks :
      (rs : List Receipt) (o p : Option Receipt) (cs : List ClaimState)
      → All WellFormed rs
      → match_receipts (keep (of_request k) rs) o ≡ passed p
      → Tracks k cs o
      → Tracks k (reduce_receipts rs cs) p
  unfolding match_receipts reduce_receipts
  match_receipts-Tracks [] o p cs w e h = let q : o ≡ p = cc in rw (← q) h
  match_receipts-Tracks (r ∷ rs) o p cs w e h = elim (Bool-cases (of_request k r)) [
    | inl t ↦
        let (x, m, n) =
          bind-passed (λ x. match_receipts (keep (of_request k) rs) x)
            (match_marked (receipt_mark r) r o) (rw t at e) in
        match_receipts-Tracks rs x p _ w.1 n
          (rw (reduce_own r cs t) (marked-Tracks (receipt_mark r) r o x cs w.0 m h))
    | inr t ↦ match_receipts-Tracks rs o p _ w.1 (rw t at e) (reduce_other-Tracks r o cs t h)
  ]

-- A replayed receipt tells of a claim that is recorded.
pub matching_claim_receipt-Told :
    (k : Key) (rs : List Receipt) (e : Receipt)
    → All WellFormed rs
    → matching_claim_receipt k rs ≡ passed (some e)
    → (c : ClaimState) × In c (reduce_receipts rs []) × Told k e c
unfolding matching_claim_receipt
matching_claim_receipt-Told k rs e w q = match_receipts-Tracks k rs none (some e) [] w q tt
