-- ===== src/Alert/Lifecycle.antt =====
-- The transitions of an alert in src/alert.rs.
use system_pilot.Alert.{
  AlertStatus, AlertRecord, AlertStore, ProcessAlert, Write, apply, desired_status, is_ignored, key,
  next_record, announced, persist, put, saturating_suc,
}
use system_pilot.Base.Map.{lookup}
use system_pilot.Base.OrderedMap.{lookup-insert_ordered}
use system_pilot.Base.{
  ◌≡◌, ◌≢◌, ◌⊎◌, refl, inl, inr, true, false, Option, none, some, Text, text_beq, text_beq_iff,
  text_eq, map_some, Bool-cases, if◌then◌else◌, arith,
}
use system_pilot.Error.{ok}

-- What `apply` may do to the status that is stored under a key.
infix 40 ◌⟶◌
pub data ◌⟶◌ : Option AlertStatus → AlertStatus → Type 0 where
  raise : none ⟶ AlertStatus.firing
  raise_again : some AlertStatus.resolved ⟶ AlertStatus.firing
  resolve : some AlertStatus.firing ⟶ AlertStatus.resolved
  resolve_acknowledged : some AlertStatus.acknowledged ⟶ AlertStatus.resolved

abbrev pub status_at : Text → AlertStore → Option AlertStatus
status_at k s = map_some (λ r. r.status) (lookup k s.records)

desired-cases :
    (event : Text)
    → (desired_status event ≡ AlertStatus.firing) ⊎ (desired_status event ≡ AlertStatus.resolved)
unfolding desired_status
desired-cases event = ground arith

ruleset transitions_of = (raise, raise_again, resolve, resolve_acknowledged)

not_ignored-⟶ :
    (desired : AlertStatus) (existing : Option AlertRecord)
    → (desired ≡ AlertStatus.firing) ⊎ (desired ≡ AlertStatus.resolved)
    → is_ignored desired existing ≡ false
    → map_some (λ (r : AlertRecord). r.status) existing ⟶ desired
not_ignored-⟶ desired none d h = grind (arith, transitions_of)
not_ignored-⟶ desired (some r) d h = grind (arith, transitions_of)

lookup-put :
    (k j : Text) (r : AlertRecord) (s : AlertStore)
    → lookup j (put k r s).records ≡ (if text_beq k j then some r else lookup j s.records)
lookup-put k j r s = lookup-insert_ordered k j r s.records

pub lookup-put_self :
    (k : Text) (r : AlertRecord) (s : AlertStore) → lookup k (put k r s).records ≡ some r
lookup-put_self k r s = ground (arith, lookup-put k k r s, text_beq_iff k k)

lookup-put_other :
    (k j : Text) (r : AlertRecord) (s : AlertStore)
    → k ≢ j
    → lookup j (put k r s).records ≡ lookup j s.records
lookup-put_other k j r s h = ground (arith, lookup-put k j r s, text_beq_iff k j)

-- A store holds what it held, but for a record under one key.
pub record Replaced (k : Text) (r : AlertRecord) (s s' : AlertStore) : Type 0 where
  pub stored : lookup k s'.records ≡ some r
  pub others : (j : Text) → k ≢ j → lookup j s'.records ≡ lookup j s.records

pub persist-Replaced {ℓ} :
    {A : Type ℓ} (k : Text) (r : AlertRecord) (s : AlertStore) (write : Write) (result : A)
    → Replaced k r s (persist write (put k r s) result).0
unfolding persist
persist-Replaced k r s Write.committed result = record {
  stored = lookup-put_self k r s;
  others = λ j h. lookup-put_other k j r s h;
}
persist-Replaced k r s (Write.failed e) result = record {
  stored = lookup-put_self k r s;
  others = λ j h. lookup-put_other k j r s h;
}

abbrev pub alert_key : ProcessAlert → Text
alert_key alert = key alert.rule_id alert.process_name

-- The record that an announced alert leaves keeps its identity and its first time, and counts one
-- more transition.
pub record Continues (old r : AlertRecord) : Type 0 where
  pub instance_id : r.instance_id ≡ old.instance_id
  pub first : r.first_observed_at_unix_nanos ≡ old.first_observed_at_unix_nanos
  pub count : r.transition_count ≡ saturating_suc old.transition_count

module _ (s : AlertStore) (alert : ProcessAlert) (write : Write) where
  pub apply_ignored :
      is_ignored (desired_status alert.event_type) (lookup (alert_key alert) s.records) ≡ true
      → apply s alert write ≡ (s, ok none)
  unfolding apply
  apply_ignored h = rw h

  abbrev pub next : AlertRecord
  next = next_record alert (desired_status alert.event_type) (lookup (alert_key alert) s.records)

  pub apply_persists :
      is_ignored (desired_status alert.event_type) (lookup (alert_key alert) s.records) ≡ false
      → apply s alert write
        ≡ persist write (put (alert_key alert) next s) (
            some (
              announced alert
                (desired_status alert.event_type)
                (lookup (alert_key alert) s.records)))
  unfolding apply
  apply_persists h = rw h

  -- Whatever the write does, an alert that is not ignored stores, under its key alone, a record
  -- whose status follows the life cycle.
  pub apply_follows_lifecycle :
      (apply s alert write ≡ (s, ok none))
      ⊎ ((r : AlertRecord) × Replaced (alert_key alert) r s (apply s alert write).0
          × (status_at (alert_key alert) s ⟶ r.status)
          × (r.status ≡ desired_status alert.event_type)
          × ((old : AlertRecord) → lookup (alert_key alert) s.records ≡ some old → Continues old r))
  apply_follows_lifecycle =
      elim (Bool-cases
        (is_ignored (desired_status alert.event_type) (lookup (alert_key alert) s.records))) [
          | inl ignored ↦ inl (apply_ignored ignored)
          | inr taken ↦ inr (
            next,
            rw (apply_persists taken) (persist-Replaced (alert_key alert) next s write _),
            not_ignored-⟶ _ _ (desired-cases alert.event_type) taken,
            refl,
            λ old h. rw h (record { instance_id = refl; first = refl; count = refl }),
          )
        ]
