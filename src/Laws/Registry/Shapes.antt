-- ===== src/Laws/Registry/Shapes.antt =====
-- The four transactions of the registry, which `_validate_transaction_shape` of xsync_v2/registry.py
-- tells apart by the payloads.
use x_sync.Prelude.{List, [], arith, refl, true, ℕ, ◌∷◌, ◌≡◌}
use x_sync.Registry.Events.{
  Activated, CommittedRegistryEvent, Deactivated, DeactivationStarted, DialogueCreated,
  RegistryEventPayload, deactivation_started, dialogue_activated, dialogue_created,
  dialogue_deactivated,
}
use x_sync.Registry.Model.{RegistryState}
use x_sync.Registry.Transaction.{payloads_of, valid_transaction_shape}

-- The payloads of the events, with what the test has found about them.
pub data Form (state : RegistryState) (last : ℕ)
    : CommittedRegistryEvent → List CommittedRegistryEvent → Type 0 where
  create :
      (first second : CommittedRegistryEvent) (c : DialogueCreated) (a : Activated)
      → first.payload ≡ dialogue_created c
      → second.payload ≡ dialogue_activated a
      → valid_transaction_shape state last (dialogue_created c ∷ dialogue_activated a ∷ []) ≡ true
      → Form state last first (second ∷ [])
  create_and_begin :
      (first second : CommittedRegistryEvent) (c : DialogueCreated) (s : DeactivationStarted)
      → first.payload ≡ dialogue_created c
      → second.payload ≡ deactivation_started s
      → valid_transaction_shape state last (dialogue_created c ∷ deactivation_started s ∷ []) ≡ true
      → Form state last first (second ∷ [])
  begin :
      (first : CommittedRegistryEvent) (s : DeactivationStarted)
      → first.payload ≡ deactivation_started s
      → valid_transaction_shape state last (deactivation_started s ∷ []) ≡ true
      → Form state last first []
  complete :
      (first second : CommittedRegistryEvent) (d : Deactivated) (a : Activated)
      → first.payload ≡ dialogue_deactivated d
      → second.payload ≡ dialogue_activated a
      → valid_transaction_shape state last (dialogue_deactivated d ∷ dialogue_activated a ∷ [])
        ≡ true
      → Form state last first (second ∷ [])

one-Form :
    (state : RegistryState) (last : ℕ) (first : CommittedRegistryEvent) (p : RegistryEventPayload)
    → first.payload ≡ p
    → valid_transaction_shape state last (p ∷ []) ≡ true
    → Form state last first []
unfolding valid_transaction_shape
one-Form state last first (dialogue_created c) e s = ground arith
one-Form state last first (deactivation_started d) e s = begin first d e s
one-Form state last first (dialogue_deactivated d) e s = ground arith
one-Form state last first (dialogue_activated a) e s = ground arith

two-Form :
    (state : RegistryState) (last : ℕ) (first second : CommittedRegistryEvent)
    (p q : RegistryEventPayload)
    → first.payload ≡ p
    → second.payload ≡ q
    → valid_transaction_shape state last (p ∷ q ∷ []) ≡ true
    → Form state last first (second ∷ [])
unfolding valid_transaction_shape
two-Form state last first second (dialogue_created c) (dialogue_activated a) e f s =
    create first second c a e f s
two-Form state last first second (dialogue_created c) (deactivation_started d) e f s =
    create_and_begin first second c d e f s
two-Form state last first second (dialogue_deactivated d) (dialogue_activated a) e f s =
    complete first second d a e f s
two-Form state last first second (dialogue_created c) (dialogue_created a) e f s = ground arith
two-Form state last first second (dialogue_created c) (dialogue_deactivated a) e f s = ground arith
two-Form state last first second (dialogue_deactivated c) (dialogue_created a) e f s = ground arith
two-Form state last first second (dialogue_deactivated c) (deactivation_started a) e f s =
    ground arith
two-Form state last first second (dialogue_deactivated c) (dialogue_deactivated a) e f s =
    ground arith
two-Form state last first second (deactivation_started c) q e f s = ground arith
two-Form state last first second (dialogue_activated c) q e f s = ground arith

pub valid_transaction_shape-Form :
    (state : RegistryState) (last : ℕ) (first : CommittedRegistryEvent)
    (rest : List CommittedRegistryEvent)
    → valid_transaction_shape state last (payloads_of (first ∷ rest)) ≡ true
    → Form state last first rest
unfolding valid_transaction_shape
valid_transaction_shape-Form state last first [] s = one-Form state last first first.payload refl s
valid_transaction_shape-Form state last first (second ∷ []) s =
    two-Form state last first second first.payload second.payload refl refl s
valid_transaction_shape-Form state last first (second ∷ third ∷ rest) s = ground arith
