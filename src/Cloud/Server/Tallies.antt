-- ===== src/Cloud/Server/Tallies.antt =====
-- What the loop of `ingest` in crates/syspilot-cloud/src/lib.rs collects, message by message.
use mathlib.Core.List.{append-nil, append_assoc}
use system_pilot.Base.Strings.{is_blank}
use system_pilot.Base.Texts.{text}
use system_pilot.Base.{
  ℕ, ◌≡◌, refl, ◌∙◌, List, [], ◌∷◌, ◌++◌, Option, none, some, Text, text_eq, arith,
}
use system_pilot.Cloud.Admission.{max}
use system_pilot.Cloud.Ingest.{InsertOutcome}
use system_pilot.Cloud.Server.{Tally, tally, unwrap_or}
use system_pilot.Distributed.Acknowledgement.{RejectedRecord, ids_of, max_sequence, max_with}
use system_pilot.Distributed.Acknowledgement.Soundness.{AreReasoned, rejected_ids}
use system_pilot.Distributed.Envelope.{TelemetryEnvelope}

-- The messages with their outcomes, in the order in which they were sent.
abbrev pub Outcomes : Type 0
Outcomes = List (TelemetryEnvelope × InsertOutcome)

abbrev pub messages : Outcomes → List TelemetryEnvelope
messages [] = []
messages ((r, o) ∷ ps) = r ∷ messages ps

abbrev pub tally_all : Outcomes → Tally → Tally
tally_all [] t = t
tally_all ((r, o) ∷ ps) t = tally_all ps (tally r o t)

abbrev pub accepted_of : Outcomes → List TelemetryEnvelope
accepted_of [] = []
accepted_of ((r, InsertOutcome.accepted) ∷ ps) = r ∷ accepted_of ps
accepted_of ((r, InsertOutcome.sequence_conflict) ∷ ps) = accepted_of ps
accepted_of ((r, InsertOutcome.replay_conflict) ∷ ps) = accepted_of ps

abbrev pub rejection : TelemetryEnvelope → Text → RejectedRecord
rejection r reason = record { message_id = r.message_id; reason = reason }

abbrev pub rejected_of : Outcomes → List RejectedRecord
rejected_of [] = []
rejected_of ((r, InsertOutcome.accepted) ∷ ps) = rejected_of ps
rejected_of ((r, InsertOutcome.sequence_conflict) ∷ ps) =
    rejection r (text "sequence_conflict") ∷ rejected_of ps
rejected_of ((r, InsertOutcome.replay_conflict) ∷ ps) =
    rejection r (text "message_id_content_conflict") ∷ rejected_of ps

pub tally_all-accepted :
    (ps : Outcomes) (t : Tally)
    → (tally_all ps t).accepted_message_ids ≡ t.accepted_message_ids ++ ids_of (accepted_of ps)
tally_all-accepted [] t = simp append-nil
tally_all-accepted ((r, InsertOutcome.accepted) ∷ ps) t =
    simp (tally_all-accepted ps (tally r InsertOutcome.accepted t), append_assoc)
tally_all-accepted ((r, InsertOutcome.sequence_conflict) ∷ ps) t =
    tally_all-accepted ps (tally r InsertOutcome.sequence_conflict t)
tally_all-accepted ((r, InsertOutcome.replay_conflict) ∷ ps) t =
    tally_all-accepted ps (tally r InsertOutcome.replay_conflict t)

pub tally_all-rejected :
    (ps : Outcomes) (t : Tally)
    → (tally_all ps t).rejected_records ≡ t.rejected_records ++ rejected_of ps
tally_all-rejected [] t = simp append-nil
tally_all-rejected ((r, InsertOutcome.accepted) ∷ ps) t =
    tally_all-rejected ps (tally r InsertOutcome.accepted t)
tally_all-rejected ((r, InsertOutcome.sequence_conflict) ∷ ps) t =
    simp (tally_all-rejected ps (tally r InsertOutcome.sequence_conflict t), append_assoc)
tally_all-rejected ((r, InsertOutcome.replay_conflict) ∷ ps) t =
    simp (tally_all-rejected ps (tally r InsertOutcome.replay_conflict t), append_assoc)

-- The greater of two, where there are any.
abbrev pub greater : Option ℕ → Option ℕ → Option ℕ
greater none o = o
greater (some m) none = some m
greater (some m) (some n) = some (max m n)

greater_none : (o : Option ℕ) → o ≡ greater o none
greater_none none = refl
greater_none (some n) = refl

greater_step :
    (h : Option ℕ) (n : ℕ) (o : Option ℕ)
    → greater (some (max (unwrap_or 0 h) n)) o ≡ greater h (some (max_with n o))
greater_step none n none = ground arith
greater_step none n (some k) = ground arith
greater_step (some m) n none = ground arith
greater_step (some m) n (some k) = ground arith

pub tally_all-highest :
    (ps : Outcomes) (t : Tally)
    → (tally_all ps t).highest_accepted_sequence
      ≡ greater t.highest_accepted_sequence (max_sequence (accepted_of ps))
unfolding max_sequence
tally_all-highest [] t = greater_none t.highest_accepted_sequence
tally_all-highest ((r, InsertOutcome.accepted) ∷ ps) t =
    tally_all-highest ps (tally r InsertOutcome.accepted t)
    ∙ greater_step t.highest_accepted_sequence r.sequence (max_sequence (accepted_of ps))
tally_all-highest ((r, InsertOutcome.sequence_conflict) ∷ ps) t =
    tally_all-highest ps (tally r InsertOutcome.sequence_conflict t)
tally_all-highest ((r, InsertOutcome.replay_conflict) ∷ ps) t =
    tally_all-highest ps (tally r InsertOutcome.replay_conflict t)

pub rejected_of-AreReasoned : (ps : Outcomes) → AreReasoned (rejected_of ps)
unfolding is_blank
rejected_of-AreReasoned [] = tt
rejected_of-AreReasoned ((r, InsertOutcome.accepted) ∷ ps) = rejected_of-AreReasoned ps
rejected_of-AreReasoned ((r, InsertOutcome.sequence_conflict) ∷ ps) =
    (refl, rejected_of-AreReasoned ps)
rejected_of-AreReasoned ((r, InsertOutcome.replay_conflict) ∷ ps) =
    (refl, rejected_of-AreReasoned ps)

-- The decided IDs, the accepted ones first.
abbrev pub decided_of : Outcomes → List Text
decided_of ps = ids_of (accepted_of ps) ++ rejected_ids (rejected_of ps)
