-- ===== src/Decision.antt =====
-- The outcome of a command: `Accepted`, `Rejected` and `Decision` of xsync_v2/domain.py, with the
-- codes that xsync_v2/state_machine.py gives, and `_accept`.
use x_sync.Prelude.{List, Option, String, [], if◌then◌else◌, none, not, some, ◌∷◌}
use x_sync.Domain.{DialogueEventPayload, PendingDialogueEvent, TriggerBinding, command_id}
use x_sync.Text.{valid_text}

pub data Code : Type 0 where
  validation_failed topic_state_conflict work_superseded evidence_stale : Code
  lens_unchanged topic_completion_guard_failed idempotency_conflict : Code
  session_deactivated state_invariant_violation : Code

pub data Decision : Type 0 where
  accepted : List PendingDialogueEvent → Decision
  rejected : Code → Decision

abbrev pub pending : String → DialogueEventPayload → PendingDialogueEvent
pending command_id payload = record { command_id = command_id; payload = payload }

unfoldable pub accept : String → DialogueEventPayload → Decision
accept command_id payload =
    if not (valid_text command_id)
    then rejected Code.validation_failed
    else accepted (pending command_id payload ∷ [])

-- `if trigger is None: return Rejected(code)`, then the rest with the trigger.
abbrev pub on_trigger : Option TriggerBinding → Code → (TriggerBinding → Decision) → Decision
on_trigger none code rest = rejected code
on_trigger (some trigger) code rest = rest trigger
