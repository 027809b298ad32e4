-- ===== src/Agent/Request.antt =====
-- .github/scripts/agent_control.py: parse_control_request and format_control_request, between a request and the JSON
-- object in its marker. What the regular expressions and string methods answer is an argument (`Texts`).
use robodata.Prelude.{
  ℕ, String, Bool, true, false, not, ◌&&◌, ◌||◌, Option, none, some, ltb, str_eq, is_some,
  if◌then◌else◌,
}
use robodata.Prelude.Checked.{Checked, passed, ◌>>=◌}
use robodata.Json.{Json, text, null, Fields, end, field, get_field}
use robodata.Agent.{Command, ready, claim, heartbeat, block, release, complete, ControlRequest}

pub data RequestError : Type 0 where
  unsupported_keys unsupported_command bad_identifier bad_reason delimiter_in_reason ids_required
        reason_required :
      RequestError

pub record Texts : Type 0 where
  -- FIELD_VALUE_RE.fullmatch
  pub is_identifier : String → Bool
  pub strip : String → String
  pub size : String → ℕ
  -- "\x00", "<!--" or "-->" stands in the text.
  pub has_delimiter : String → Bool

unfoldable pub command_name : Command → String
command_name ready = "ready"
command_name claim = "claim"
command_name heartbeat = "heartbeat"
command_name block = "block"
command_name release = "release"
command_name complete = "complete"

-- A command of ALLOWED_COMMANDS.
unfoldable pub allowed_command : String → Option Command
allowed_command s =
    if str_eq s "ready"
    then some ready
    else if str_eq s "claim"
    then some claim
    else if str_eq s "heartbeat"
    then some heartbeat
    else if str_eq s "block"
    then some block
    else if str_eq s "release"
    then some release
    else none

abbrev pub known_key : String → Bool
known_key k = str_eq k "command" || str_eq k "claim_id" || str_eq k "run_id" || str_eq k "reason"

unfoldable pub all_known : Fields → Bool
all_known end = true
all_known (field k v fs) = known_key k && all_known fs

abbrev pub known_command : Option Command → Checked RequestError Command
known_command none = Checked.rejected unsupported_command
known_command (some c) = passed c

-- A list or a dict is a TypeError in the source, which ends the run as well.
abbrev pub parse_command : Option Json → Checked RequestError Command
parse_command (some (text s)) = known_command (allowed_command s)
parse_command _ = Checked.rejected unsupported_command

abbrev pub needs_ids : Command → Bool
needs_ids ready = false
needs_ids complete = false
needs_ids _ = true

abbrev pub is_block : Command → Bool
is_block block = true
is_block _ = false

abbrev pub finish : ControlRequest → Checked RequestError ControlRequest
finish q =
    if needs_ids q.command && not (is_some q.claim_id && is_some q.run_id)
    then Checked.rejected ids_required
    else if is_block q.command && not (is_some q.reason)
    then Checked.rejected reason_required
    else passed q

module _ (texts : Texts) where
  abbrev pub parse_identifier : Option Json → Checked RequestError (Option String)
  parse_identifier none = passed none
  parse_identifier (some null) = passed none
  parse_identifier (some (text s)) =
      if texts.is_identifier s then passed (some s) else Checked.rejected bad_identifier
  parse_identifier (some _) = Checked.rejected bad_identifier

  abbrev pub parse_reason : Option Json → Checked RequestError (Option String)
  parse_reason none = passed none
  parse_reason (some null) = passed none
  parse_reason (some (text s)) =
      if str_eq (texts.strip s) "" || ltb 500 (texts.size s)
      then Checked.rejected bad_reason
      else if texts.has_delimiter s
      then Checked.rejected delimiter_in_reason
      else passed (some (texts.strip s))
  parse_reason (some _) = Checked.rejected bad_reason

  abbrev pub parse_fields : Fields → Checked RequestError ControlRequest
  parse_fields payload = parse_command (get_field "command" payload) >>= λ command.
      parse_identifier (get_field "claim_id" payload) >>= λ claim_id.
      parse_identifier (get_field "run_id" payload) >>= λ run_id.
      parse_reason (get_field "reason" payload) >>= λ reason.
      finish (record { command = command; claim_id = claim_id; run_id = run_id; reason = reason })

  -- From the payload, a JSON object, on.
  unfoldable pub parse_control_request : Fields → Checked RequestError ControlRequest
  unfolding all_known allowed_command get_field
  parse_control_request payload =
      if all_known payload then parse_fields payload else Checked.rejected unsupported_keys

abbrev pub field_if : String → Option String → Fields → Fields
field_if k none fs = fs
field_if k (some s) fs = field k (text s) fs

-- The payload, with its keys sorted.
unfoldable pub format_control_request : ControlRequest → Fields
unfolding command_name
format_control_request q = field_if "claim_id" q.claim_id (
    field "command" (text (command_name q.command))
      (field_if "reason" q.reason (field_if "run_id" q.run_id end)))
