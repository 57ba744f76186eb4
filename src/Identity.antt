-- ===== src/Identity.antt =====
-- xsync_v2/work_identity.py: the canonical shape of a trigger, and the work id derived from it.
-- `hashlib.sha256` is not part of the repository: it is the instance argument `Sha256`.
use Prim.Native.String.{◌++◌ as append}
use x_sync.Prelude.{
  Bool, Error, List, Option, Result, String, [], err, if◌then◌else◌, ltb, none, not, ok, some, suc,
  true, zero, ℕ, ◌%◌, ◌&&◌, ◌++◌, ◌+◌, ◌/◌, ◌||◌, ◌∷◌, ◌≡◌,
}
use x_sync.Domain.{TriggerBinding, TriggerKind}
use x_sync.Text.{
  codes, is_hex64, is_optional_protocol_id, is_optional_sha256_digest, is_protocol_id,
  is_sha256_digest,
}

-- `hashlib.sha256(encoded).hexdigest()`.
pub record Sha256 : Type 0 where
  pub hexdigest : List ℕ → String

-- A hex digest is 64 lowercase hexadecimal characters.
abbrev pub HasHexDigests : Sha256 → Type 0
HasHexDigests h = (encoded : List ℕ) → is_hex64 (codes (h.hexdigest encoded)) ≡ true

unfoldable pub is_canonical_trigger_binding : TriggerBinding → Bool
is_canonical_trigger_binding value =
    is_protocol_id value.work_id
    && is_protocol_id value.runtime_epoch
    && is_optional_protocol_id value.parent_turn_id
    && is_optional_sha256_digest value.contract_digest
    && is_sha256_digest value.input_digest
    && is_sha256_digest value.evidence_digest

-- `trigger.kind.value`.
unfoldable pub kind_value : TriggerKind → String
kind_value TriggerKind.topic_candidates = "topic_candidates"
kind_value TriggerKind.topic_selection = "topic_selection"
kind_value TriggerKind.initial_turn = "initial_turn"
kind_value TriggerKind.learner_reply = "learner_reply"
kind_value TriggerKind.help = "help"
kind_value TriggerKind.lens_changed = "lens_changed"
kind_value TriggerKind.reground = "reground"

-- The decimal digits of a number in front of `acc`; the fuel is one more than the number.
unfoldable pub decimal_loop : ℕ → ℕ → List ℕ → List ℕ
decimal_loop zero n acc = acc
decimal_loop (suc fuel) n acc =
    let digits = (48 + n % 10) ∷ acc in
    let rest = decimal_loop fuel (n / 10) digits in if ltb n 10 then digits else rest

unfoldable pub decimal : ℕ → List ℕ
decimal n = decimal_loop (suc n) n []

-- A JSON string. The texts that are encoded here are protocol ids, digests and enum values, in
-- which no character is escaped.
unfoldable pub json_string : String → List ℕ
json_string s = b'"' ∷ codes s ++ b'"' ∷ []

unfoldable pub json_optional : Option String → List ℕ
json_optional none = codes "null"
json_optional (some s) = json_string s

-- `json.dumps(identity, separators=(",", ":"), sort_keys=True)` for the seven keys of `identity`.
unfoldable pub canonical_identity : String → String → ℕ → TriggerBinding → List ℕ
canonical_identity session_id trigger_event_id trigger_event_sequence trigger =
    codes "{\"contract_digest\":"
    ++ json_optional trigger.contract_digest
    ++ codes ",\"evidence_digest\":"
    ++ json_string trigger.evidence_digest
    ++ codes ",\"input_digest\":"
    ++ json_string trigger.input_digest
    ++ codes ",\"kind\":"
    ++ json_string (kind_value trigger.kind)
    ++ codes ",\"session_id\":"
    ++ json_string session_id
    ++ codes ",\"trigger_event_id\":"
    ++ json_string trigger_event_id
    ++ codes ",\"trigger_event_sequence\":"
    ++ decimal trigger_event_sequence
    ++ codes "}"

module _ ⦃h : Sha256⦄ where
  unfoldable pub derive_canonical_work_id : String → String → ℕ → TriggerBinding → Result String
  derive_canonical_work_id session_id trigger_event_id trigger_event_sequence trigger =
      if not (is_protocol_id session_id)
        || not (is_protocol_id trigger_event_id)
        || ltb trigger_event_sequence 1
        || not (is_canonical_trigger_binding trigger)
      then err Error.work_id_input_invalid
      else ok (
          append "work-" (
            h.hexdigest
              (canonical_identity session_id trigger_event_id trigger_event_sequence trigger)))
