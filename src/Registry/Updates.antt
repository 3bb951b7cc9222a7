-- ===== src/Registry/Updates.antt =====
-- src/lws/registry.py, the operations that read an action attempt, outside of any transaction, and then
-- write its row. What each makes of the attempt that it read is a function of its own (`submitted_of` and
-- the like), so that `Overlap` can put other calls between the two; the operation is the run with none
-- between. `validate_acknowledgement` is of src/lws/actions.py.
use localshell_web_superviso.Base.{
  ℕ, Bool, true, false, not, ◌||◌, Option, none, some, String, ◌==◌, ltb, strip, take_text,
  if◌then◌else◌, Outcome, ok, value_error, runtime_error, action_blocked, raise_if, ◌>>=◌, ◌>>◌,
}
use localshell_web_superviso.Models.Mutation.{ActionAttempt, ActionAttemptState, action_unresolved}
use localshell_web_superviso.Registry.Actions.{
  Store, ActionAcknowledgement, get_action_attempt, is_armed, replace_action_attempt,
}

-- the read, what is made of the attempt, and the write
unfoldable pub update_attempt :
    Store → String → (ActionAttempt → Outcome ActionAttempt) → Outcome Store
update_attempt st id update = do
  a ← get_action_attempt st id
  new ← update a
  replace_action_attempt st new

unfoldable pub submitted_of : String → ℕ → ActionAttempt → Outcome ActionAttempt
submitted_of transport now a = do
  raise_if (not (is_armed a.state)) (runtime_error "action is not ARMED")
  ok (record a {
    state = ActionAttemptState.submitted;
    transport_name = some transport;
    submitted_at = some now;
    updated_at = now;
  })

abbrev pub mark_action_submitted : Store → String → String → ℕ → Outcome Store
mark_action_submitted st id transport now = update_attempt st id (submitted_of transport now)

-- `transport_name or attempt.transport_name`
abbrev pub or_else : Option String → Option String → Option String
or_else none other = other
or_else (some t) other = if t == "" then other else some t

-- the shared part of the three ways to give up on an unresolved attempt
unfoldable pub settled_of :
    ActionAttemptState → String → Option String → ℕ → ActionAttempt → Outcome ActionAttempt
settled_of state error transport now a = do
  raise_if (not (action_unresolved a.state)) (runtime_error "action is already terminal")
  ok (record a {
    state = state;
    transport_name = or_else transport a.transport_name;
    last_error = some (take_text 1000 error);
    updated_at = now;
  })

abbrev pub mark_action_reconcile_required :
    Store → String → String → Option String → ℕ → Outcome Store
mark_action_reconcile_required st id error transport now =
    update_attempt st id (settled_of ActionAttemptState.reconcile_required error transport now)

abbrev pub fail_action_attempt : Store → String → String → Option String → ℕ → Outcome Store
fail_action_attempt st id error transport now =
    update_attempt st id (settled_of ActionAttemptState.failed error transport now)

abbrev pub cancel_action_attempt : Store → String → String → ℕ → Outcome Store
cancel_action_attempt st id reason now =
    update_attempt st id (settled_of ActionAttemptState.cancelled reason none now)

unfoldable pub validate_acknowledgement : ActionAttempt → ActionAcknowledgement → Outcome (Unit {0})
validate_acknowledgement a k = do
  raise_if (not (action_unresolved a.state)) (action_blocked "attempt is already terminal")
  raise_if (not (k.attempt_id == a.attempt_id))
      (action_blocked "acknowledgement attempt id does not match")
  raise_if (not (k.worker_id == a.worker_id))
      (action_blocked "acknowledgement belongs to a different worker")
  raise_if (not k.accepted)
      (action_blocked "negative acknowledgement cannot mark an action accepted")
  raise_if (ltb k.observed_at a.created_at)
      (action_blocked "acknowledgement predates the armed action")
  raise_if (strip k.kind == "" || strip k.evidence_hash == "")
      (action_blocked "acknowledgement requires positive evidence kind/hash")

unfoldable pub acknowledged_of : ActionAcknowledgement → ActionAttempt → Outcome ActionAttempt
acknowledged_of k a = do
  validate_acknowledgement a k
  ok (record a {
    state = ActionAttemptState.acknowledged;
    acknowledged_at = some k.observed_at;
    acknowledgement_kind = some k.kind;
    acknowledgement_hash = some k.evidence_hash;
    last_error = none;
    updated_at = k.observed_at;
    ack_uia_text_signature = or_else k.text_signature a.ack_uia_text_signature;
  })

abbrev pub acknowledge_action : Store → ActionAcknowledgement → Outcome Store
acknowledge_action st k = update_attempt st k.attempt_id (acknowledged_of k)

abbrev pub is_acknowledged : ActionAttemptState → Bool
is_acknowledged ActionAttemptState.acknowledged = true
is_acknowledged _ = false

unfoldable pub signed_of : String → ActionAttempt → Outcome ActionAttempt
signed_of signature a = do
  raise_if (not (is_acknowledged a.state))
      (runtime_error "browser acknowledgement signature requires ACKNOWLEDGED action")
  ok (record a { ack_browser_signature = some (strip signature) })

unfoldable pub record_action_ack_browser_signature : Store → String → String → Outcome Store
record_action_ack_browser_signature st id signature = do
  raise_if (strip signature == "") (value_error "message_signature must be non-empty")
  update_attempt st id (signed_of signature)
