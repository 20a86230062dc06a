-- ===== src/Alert/Status.antt =====
-- `set_status` of src/alert.rs: what an operator may do to an alert.
use system_pilot.Alert.{AlertStatus, AlertRecord, Records, find_instance, status_beq}
use system_pilot.Base.Map.{lookup}
use system_pilot.Base.OrderedMap.{Above, IsOrdered}
use system_pilot.Base.Texts.{text_lt, text_lt_irrefl}
use system_pilot.Base.{
  ◌≡◌, inl, inr, Bool, true, ◌&&◌, [], ◌∷◌, some, Text, text_beq, text_beq_iff, text_eq, Bool-cases,
  arith,
}

find_instance-Above :
    (id j k : Text) (m : Records) (r : AlertRecord)
    → Above j m
    → find_instance id m ≡ some (k, r)
    → text_lt j k ≡ true
unfolding find_instance
find_instance-Above id j k [] r a h = absurd (ground arith)
find_instance-Above id j k ((i, w) ∷ m) r a h = elim (Bool-cases (text_beq w.instance_id id)) [
  | inl here ↦ ground arith
  | inr there ↦ find_instance-Above id j k m r a.1 (ground arith)
]

-- The record that is found carries the instance, and is the one under its key.
pub find_instance_sound :
    (id k : Text) (m : Records) (r : AlertRecord)
    → IsOrdered m
    → find_instance id m ≡ some (k, r)
    → (r.instance_id ≡ id) × (lookup k m ≡ some r)
unfolding find_instance lookup
find_instance_sound id k [] r o h = absurd (ground arith)
find_instance_sound id k ((i, w) ∷ m) r o h = elim (Bool-cases (text_beq w.instance_id id)) [
  | inl here ↦ ground (arith, text_beq_iff w.instance_id id, text_beq_iff i k)
  | inr there ↦
      let (same, stored) = find_instance_sound id k m r o.1 (ground arith) in
      let after = find_instance-Above id i k m r o.0 (ground arith) in
      (same, ground (arith, text_beq_iff i k, text_lt_irrefl k))
]

abbrev refuses : AlertStatus → AlertStatus → Bool
refuses old status =
    status_beq old AlertStatus.resolved && status_beq status AlertStatus.acknowledged
