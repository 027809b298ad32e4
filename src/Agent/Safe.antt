-- ===== src/Agent/Safe.antt =====
-- .github/scripts/agent_control.py: which of its calls keep an issue's live claims with one key, also where a
-- run is cut short.
use robodata.Prelude.{
  ℕ, zero, suc, String, true, false, ◌≡◌, refl, ap, sym, ◌∙◌, ◌⊎◌, inl, inr, List, [], ◌∷◌, ◌++◌,
  Option, none, some, ltb, take, All, All-append, Bool-cases, is_some,
}
use mathlib.Core.List.{append_assoc}
use robodata.Agent.{
  Timestamp, instant, Key, Values, Receipt, Comment, trusted_receipt_bodies, parse_receipts,
  reduce_receipts, is_bot,
}
use robodata.Agent.Controller.{
  Board, Effect, set_status, set_claim_id, set_run_id, set_lease_until, set_attempt, set_dimension,
  remove_label, post_comment, apply_effect, apply_effects, board_receipts, bot_comment,
}
use robodata.Agent.Live.{AllHeld, Fits, append-AllHeld}
use robodata.Agent.Matching.{WellFormed}

abbrev pub OfKey : Option String → String → Type 0
OfKey o s = (o ≡ none) ⊎ (o ≡ some s)

-- The two IDs in the fields are the key's, as far as they are set.
abbrev pub Knows : Key → Values → Type 0
Knows k v = OfKey v.claim_id k.claim_id × OfKey v.run_id k.run_id

abbrev pub HeldFields : ℕ → Key → Values → Type 0
HeldFields now k v = (t : ℕ) → v.lease_until ≡ some (instant t) → ltb now t ≡ true → Knows k v

-- Every claim that is live by the receipts has the key, and so have the IDs beside a live lease in the fields.
pub record Held (now : ℕ) (k : Key) (b : Board) : Type 0 where
  pub formed : All WellFormed (board_receipts b)
  pub recorded : AllHeld now k (reduce_receipts (board_receipts b) [])
  pub fields : HeldFields now k b.values

-- An effect that keeps this, whatever the fields are.
abbrev pub Static : Key → Effect → Type 0
Static k (set_claim_id o) = OfKey o k.claim_id
Static k (set_run_id o) = OfKey o k.run_id
Static k (set_lease_until l) = is_some l ≡ false
Static k (post_comment r) = Fits k r × WellFormed r
Static k _ = Unit

-- The same where the IDs in the fields are known to be the key's.
abbrev pub Keyed : Key → Effect → Type 0
Keyed k (set_lease_until l) = Unit
Keyed k e = Static k e

-- The board is in order after each first part of the effects.
abbrev pub SafeRun : ℕ → Key → Board → List Effect → Type 0
SafeRun now k b [] = Held now k b
SafeRun now k b (e ∷ es) = Held now k b × SafeRun now k (apply_effect e b) es

trusted-append :
    (cs : List Comment) (r : Receipt)
    → parse_receipts (trusted_receipt_bodies (cs ++ bot_comment r ∷ []))
      ≡ parse_receipts (trusted_receipt_bodies cs) ++ r ∷ []
unfolding trusted_receipt_bodies parse_receipts
trusted-append [] r = refl
trusted-append (c ∷ cs) r = elim (Bool-cases (is_bot c.login)) [
  | inl t ↦ rw t (
      ap (λ x. c.receipts ++ x) (trusted-append cs r)
      ∙ sym (append_assoc c.receipts (parse_receipts (trusted_receipt_bodies cs)) (r ∷ [])))
  | inr t ↦ rw t (trusted-append cs r)
]

pub post-receipts :
    (b : Board) (r : Receipt)
    → board_receipts (apply_effect (post_comment r) b) ≡ board_receipts b ++ r ∷ []
unfolding apply_effect board_receipts
post-receipts b r = trusted-append b.comments r

module _ (now : ℕ) (k : Key) where
  post-Held :
      (b : Board) (r : Receipt)
      → Fits k r × WellFormed r
      → Held now k b
      → Held now k (apply_effect (post_comment r) b)
  unfolding apply_effect
  post-Held b r (f, w) h = record {
    formed =
        rw (post-receipts b r) (All-append WellFormed (r ∷ []) (w, tt) (board_receipts b) h.formed);
    recorded = rw (post-receipts b r) (append-AllHeld now k (board_receipts b) r f h.recorded);
    fields = h.fields;
  }

  apply-Held : (e : Effect) (b : Board) → Static k e → Held now k b → Held now k (apply_effect e b)
  unfolding apply_effect board_receipts
  apply-Held (set_status s) b p h = record {
    formed = h.formed;
    recorded = h.recorded;
    fields = h.fields;
  }
  apply-Held (set_claim_id o) b p h = record {
    formed = h.formed;
    recorded = h.recorded;
    fields = λ t l v. (p, (h.fields t l v).1);
  }
  apply-Held (set_run_id o) b p h = record {
    formed = h.formed;
    recorded = h.recorded;
    fields = λ t l v. ((h.fields t l v).0, p);
  }
  apply-Held (set_lease_until none) b p h = record {
    formed = h.formed;
    recorded = h.recorded;
    fields = λ t l v. cc;
  }
  apply-Held (set_lease_until (some l)) b p h = cc
  apply-Held (set_attempt n) b p h = record {
    formed = h.formed;
    recorded = h.recorded;
    fields = h.fields;
  }
  apply-Held (set_dimension n v) b p h = record {
    formed = h.formed;
    recorded = h.recorded;
    fields = h.fields;
  }
  apply-Held (remove_label l) b p h = record {
    formed = h.formed;
    recorded = h.recorded;
    fields = h.fields;
  }
  apply-Held (post_comment r) b p h = post-Held b r p h

  apply-Knows :
      (e : Effect) (b : Board) → Keyed k e → Knows k b.values → Knows k (apply_effect e b).values
  unfolding apply_effect
  apply-Knows (set_claim_id o) b p h = (p, h.1)
  apply-Knows (set_run_id o) b p h = (h.0, p)
  apply-Knows (set_status s) b p h = h
  apply-Knows (set_lease_until l) b p h = h
  apply-Knows (set_attempt n) b p h = h
  apply-Knows (set_dimension n v) b p h = h
  apply-Knows (remove_label l) b p h = h
  apply-Knows (post_comment r) b p h = h

  lease-Held :
      (l : Option Timestamp) (b : Board)
      → Knows k b.values
      → Held now k b
      → Held now k (apply_effect (set_lease_until l) b)
  unfolding apply_effect board_receipts
  lease-Held l b n h = record { formed = h.formed; recorded = h.recorded; fields = λ t e v. n }

  Keyed-Held :
      (e : Effect) (b : Board)
      → Keyed k e
      → Knows k b.values
      → Held now k b
      → Held now k (apply_effect e b)
  Keyed-Held (set_lease_until l) b p n h = lease-Held l b n h
  Keyed-Held (set_claim_id o) b p n h = apply-Held (set_claim_id o) b p h
  Keyed-Held (set_run_id o) b p n h = apply-Held (set_run_id o) b p h
  Keyed-Held (set_status s) b p n h = apply-Held (set_status s) b p h
  Keyed-Held (set_attempt m) b p n h = apply-Held (set_attempt m) b p h
  Keyed-Held (set_dimension d v) b p n h = apply-Held (set_dimension d v) b p h
  Keyed-Held (remove_label l) b p n h = apply-Held (remove_label l) b p h
  Keyed-Held (post_comment r) b p n h = apply-Held (post_comment r) b p h

  pub Static-SafeRun :
      (es : List Effect) (b : Board) → All (Static k) es → Held now k b → SafeRun now k b es
  Static-SafeRun [] b p h = h
  Static-SafeRun (e ∷ es) b p h =
      (h, Static-SafeRun es (apply_effect e b) p.1 (apply-Held e b p.0 h))

  pub Keyed-SafeRun :
      (es : List Effect) (b : Board)
      → All (Keyed k) es
      → Knows k b.values
      → Held now k b
      → SafeRun now k b es
  Keyed-SafeRun [] b p n h = h
  Keyed-SafeRun (e ∷ es) b p n h =
      (h, Keyed-SafeRun es (apply_effect e b) p.1 (apply-Knows e b p.0 n) (Keyed-Held e b p.0 n h))

  pub append-SafeRun :
      (es fs : List Effect) (b : Board)
      → SafeRun now k b es
      → (Held now k (apply_effects es b) → SafeRun now k (apply_effects es b) fs)
      → SafeRun now k b (es ++ fs)
  unfolding apply_effects
  append-SafeRun [] fs b h f = f h
  append-SafeRun (e ∷ es) fs b h f = (h.0, append-SafeRun es fs (apply_effect e b) h.1 f)

  -- A run that is cut short after any number of its effects.
  pub cut-Held :
      (n : ℕ) (es : List Effect) (b : Board)
      → SafeRun now k b es
      → Held now k (apply_effects (take n es) b)
  unfolding apply_effects
  cut-Held zero [] b h = h
  cut-Held zero (e ∷ es) b h = h.0
  cut-Held (suc n) [] b h = h
  cut-Held (suc n) (e ∷ es) b h = cut-Held n es (apply_effect e b) h.1
