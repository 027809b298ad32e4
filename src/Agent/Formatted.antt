-- ===== src/Agent/Formatted.antt =====
-- .github/scripts/agent_control.py: a request is parsed from the payload that it is formatted to.
use robodata.Prelude.{
  String, Bool, true, false, not, ◌&&◌, ◌≡◌, refl, ◌∙◌, Option, none, some, ltb, str_eq, is_some,
  eq_refl,
}
use robodata.Prelude.Checked.{passed}
use robodata.Json.{Json, text, Fields, end, field, get_field}
use robodata.Agent.{Command, ready, claim, heartbeat, block, release, complete, ControlRequest}
use robodata.Agent.Request.{
  Texts, command_name, allowed_command, known_key, all_known, parse_command, needs_ids, is_block,
  parse_identifier, parse_reason, parse_fields, parse_control_request, field_if,
  format_control_request,
}

abbrev pub text_if : Option String → Option Json
text_if none = none
text_if (some s) = some (text s)

-- All commands but `complete`.
abbrev pub is_request_command : Command → Bool
is_request_command complete = false
is_request_command _ = true

name-allowed :
    (c : Command) → is_request_command c ≡ true → allowed_command (command_name c) ≡ some c
unfolding allowed_command command_name
name-allowed ready h = refl
name-allowed claim h = refl
name-allowed heartbeat h = refl
name-allowed block h = refl
name-allowed release h = refl
name-allowed complete h = cc

parse_command-name :
    (c : Command)
    → allowed_command (command_name c) ≡ some c
    → parse_command (some (text (command_name c))) ≡ passed c
parse_command-name c h = rw h refl

get_field-skip :
    (k j : String) (o : Option String) (fs : Fields)
    → str_eq j k ≡ false
    → get_field k (field_if j o fs) ≡ get_field k fs
unfolding get_field
get_field-skip k j none fs h = refl
get_field-skip k j (some s) fs h = rw h refl

get_field-same :
    (k : String) (o : Option String) (fs : Fields)
    → get_field k fs ≡ none
    → get_field k (field_if k o fs) ≡ text_if o
unfolding get_field
get_field-same k none fs h = h
get_field-same k (some s) fs h = rw (eq_refl k) refl

all_known-field_if :
    (k : String) (o : Option String) (fs : Fields)
    → known_key k ≡ true
    → all_known (field_if k o fs) ≡ all_known fs
unfolding all_known
all_known-field_if k none fs h = refl
all_known-field_if k (some s) fs h = rw h refl

module _ (q : ControlRequest) where
  abbrev last : Fields
  last = field_if "run_id" q.run_id end

  abbrev named : Fields
  named = field "command" (text (command_name q.command)) (field_if "reason" q.reason last)

  formatted-known : all_known (format_control_request q) ≡ true
  unfolding format_control_request all_known
  formatted-known =
      all_known-field_if "claim_id" q.claim_id named refl
      ∙ all_known-field_if "reason" q.reason last refl
      ∙ all_known-field_if "run_id" q.run_id end refl

  formatted-claim_id : get_field "claim_id" (format_control_request q) ≡ text_if q.claim_id
  unfolding format_control_request get_field
  formatted-claim_id = get_field-same "claim_id" q.claim_id named (
      get_field-skip "claim_id" "reason" q.reason last refl
      ∙ get_field-skip "claim_id" "run_id" q.run_id end refl)

  formatted-command :
      get_field "command" (format_control_request q) ≡ some (text (command_name q.command))
  unfolding format_control_request get_field
  formatted-command = get_field-skip "command" "claim_id" q.claim_id named refl

  formatted-run_id : get_field "run_id" (format_control_request q) ≡ text_if q.run_id
  unfolding format_control_request get_field
  formatted-run_id =
      get_field-skip "run_id" "claim_id" q.claim_id named refl
      ∙ get_field-skip "run_id" "reason" q.reason last refl
      ∙ get_field-same "run_id" q.run_id end refl

  formatted-reason : get_field "reason" (format_control_request q) ≡ text_if q.reason
  unfolding format_control_request get_field
  formatted-reason =
      get_field-skip "reason" "claim_id" q.claim_id named refl
      ∙ get_field-same "reason" q.reason last (get_field-skip "reason" "run_id" q.run_id end refl)

-- A request that parse_control_request could return.
module _ (texts : Texts) where
  abbrev pub IsIdentifier : Option String → Type 0
  IsIdentifier none = Unit
  IsIdentifier (some s) = texts.is_identifier s ≡ true

  abbrev pub IsReason : Option String → Type 0
  IsReason none = Unit
  IsReason (some s) =
      (texts.strip s ≡ s)
      × (str_eq s "" ≡ false)
      × (ltb 500 (texts.size s) ≡ false)
      × (texts.has_delimiter s ≡ false)

  parse_identifier-text :
      (o : Option String) → IsIdentifier o → parse_identifier texts (text_if o) ≡ passed o
  parse_identifier-text none h = refl
  parse_identifier-text (some s) h = rw h refl

  parse_reason-text : (o : Option String) → IsReason o → parse_reason texts (text_if o) ≡ passed o
  parse_reason-text none h = refl
  parse_reason-text (some s) (e, f, g, d) = rw (e, f, g, d) refl

  pub record IsRequest (q : ControlRequest) : Type 0 where
    pub allowed : is_request_command q.command ≡ true
    pub claim_id_fits : IsIdentifier q.claim_id
    pub run_id_fits : IsIdentifier q.run_id
    pub reason_fits : IsReason q.reason
    pub has_ids : needs_ids q.command && not (is_some q.claim_id && is_some q.run_id) ≡ false
    pub has_reason : is_block q.command && not (is_some q.reason) ≡ false

  -- What a payload is read as, by its four values.
  read_values :
      (payload : Fields) (q : ControlRequest)
      → IsRequest q
      → get_field "command" payload ≡ some (text (command_name q.command))
      → get_field "claim_id" payload ≡ text_if q.claim_id
      → get_field "run_id" payload ≡ text_if q.run_id
      → get_field "reason" payload ≡ text_if q.reason
      → parse_fields texts payload ≡ passed q
  read_values payload q h c i r w =
      rw
        (
          c,
          i,
          r,
          w,
          parse_command-name q.command (name-allowed q.command h.allowed),
          parse_identifier-text q.claim_id h.claim_id_fits,
          parse_identifier-text q.run_id h.run_id_fits,
          parse_reason-text q.reason h.reason_fits,
        )
        (rw (h.has_ids, h.has_reason) refl)

  -- A request whose command is allowed, whose IDs match their pattern, whose reason is stripped, not empty, of at most
  -- 500 characters and with no delimiter, and which has the IDs and the reason that its command wants, is
  -- parsed from the payload that it is formatted to.
  pub parse_control_request-format :
      (q : ControlRequest)
      → IsRequest q
      → parse_control_request texts (format_control_request q) ≡ passed q
  unfolding parse_control_request format_control_request
  parse_control_request-format q h = rw (formatted-known q) (
      read_values (format_control_request q) q h (formatted-command q) (formatted-claim_id q)
        (formatted-run_id q) (formatted-reason q))
