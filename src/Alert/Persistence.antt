-- ===== src/Alert/Persistence.antt =====
-- Repeated alerts, failed writes and restarts in src/alert.rs.
use mathlib.Core.List.{append_assoc}
use system_pilot.Alert.Lifecycle.{alert_key, apply_ignored, apply_persists, next, persist-Replaced}
use system_pilot.Alert.{
  AlertStatus, AlertRecord, AlertStore, ProcessAlert, Write, alert_state_schema_version, announced,
  apply, desired_status, is_ignored, key, open_store, persist,
}
use system_pilot.Base.Map.{lookup}
use system_pilot.Base.{
  ◌≡◌, ◌≢◌, refl, ap, inl, inr, Bool, true, false, ◌∷◌, ◌++◌, none, some, Text, text_eq, Bool-cases,
  arith,
}
use system_pilot.Error.{AppError, ok, err}

abbrev ignores : AlertStore → ProcessAlert → Bool
ignores s alert = is_ignored (desired_status alert.event_type) (lookup (alert_key alert) s.records)

is_ignored_stored :
    (desired : AlertStatus) (r : AlertRecord)
    → r.status ≡ desired
    → is_ignored desired (some r) ≡ true
is_ignored_stored desired r h = ground arith

module _ (s : AlertStore) (a b : ProcessAlert) (write : Write)
    (same_key : alert_key a ≡ alert_key b)
    (same_kind : desired_status a.event_type ≡ desired_status b.event_type) where
  ignores_again : ignores (apply s a write).0 b ≡ true
  ignores_again = elim (Bool-cases (ignores s a)) [
    | inl ignored ↦ rw (apply_ignored s a write ignored, ← same_key, ← same_kind) ignored
    | inr taken ↦
        let stored =
          (persist-Replaced (alert_key a) (next s a write) s write (
            some (
              announced a (desired_status a.event_type)
                (lookup (alert_key a) s.records)))).stored in
        rw (apply_persists s a write taken, ← same_key, stored)
          (is_ignored_stored _ (next s a write) same_kind)
  ]

  -- Once an alert was applied, whether or not its write succeeded, another of the same key and
  -- kind changes nothing and is not announced.
  pub apply_again_ignored :
      (again : Write) → apply (apply s a write).0 b again ≡ ((apply s a write).0, ok none)
  apply_again_ignored again = apply_ignored _ b again ignores_again

-- A colon in a rule or in a process name makes different alerts share a key.
key_collides :
    (rule part name : Text) → key (rule ++ (b':' ∷ part)) name ≡ key rule (part ++ (b':' ∷ name))
unfolding key
key_collides rule part name = append_assoc rule (b':' ∷ part) (b':' ∷ name)

-- After an alert of rule `rule:part` for process `name`, one of rule `rule` for process
-- `part:name` of the same kind is not announced, and changes nothing.
pub colliding_alert_ignored :
    (s : AlertStore) (a b : ProcessAlert) (write again : Write) (rule part name : Text)
    → a.rule_id ≡ rule ++ (b':' ∷ part)
    → a.process_name ≡ name
    → b.rule_id ≡ rule
    → b.process_name ≡ part ++ (b':' ∷ name)
    → desired_status a.event_type ≡ desired_status b.event_type
    → apply (apply s a write).0 b again ≡ ((apply s a write).0, ok none)
colliding_alert_ignored s a b write again rule part name ar an br bn kind =
    apply_again_ignored s a b write (rw (ar, an, br, bn) (key_collides rule part name)) kind again

not_announced :
    (s : AlertStore) (a : ProcessAlert)
    → (apply s a Write.committed).1 ≢ ok none
    → ignores s a ≡ false
not_announced s a h = elim (Bool-cases (ignores s a)) [
  | inl ignored ↦ absurd (h (ap (λ x. x.1) (apply_ignored s a Write.committed ignored)))
  | inr taken ↦ taken
]

-- When the write of an alert that had to be announced fails, the caller gets the error and the file
-- is as before, but the state in memory has moved on: the same alert, tried again with any outcome
-- of its write, is taken for known and is never announced.
pub failed_write_swallows :
    (s : AlertStore) (a : ProcessAlert) (e : AppError) (again : Write)
    → (apply s a Write.committed).1 ≢ ok none
    → let (s', result) = apply s a (Write.failed e) in
      (result ≡ err e) × (s'.file ≡ s.file) × (apply s' a again ≡ (s', ok none))
failed_write_swallows s a e again h =
    let failed = apply_persists s a (Write.failed e) (not_announced s a h) in
    (
      rw failed (unfold persist in refl),
      rw failed (unfold persist in refl),
      apply_again_ignored s a a (Write.failed e) refl refl again,
    )

open_store-persist {ℓ} :
    {A : Type ℓ} (s : AlertStore) (x : A)
    → s.schema_version ≡ alert_state_schema_version
    → open_store (persist Write.committed s x).0.file ≡ ok (persist Write.committed s x).0
unfolding open_store persist
open_store-persist s x version = rw version

-- A store of this version that has announced an alert is found again, whole, by the next `open`.
pub reopen_after_apply :
    (s : AlertStore) (a : ProcessAlert)
    → s.schema_version ≡ alert_state_schema_version
    → (apply s a Write.committed).1 ≢ ok none
    → open_store (apply s a Write.committed).0.file ≡ ok (apply s a Write.committed).0
reopen_after_apply s a version h =
    rw (apply_persists s a Write.committed (not_announced s a h)) (open_store-persist _ _ version)
