-- ===== src/Cloud/Server/Agreement.antt =====
-- What the loop of `ingest` in crates/syspilot-cloud/src/lib.rs collects keeps the rules that the agent of
-- src/distributed.rs checks.
use system_pilot.Base.{
  contains-append, ◌≡◌, ◌≢◌, refl, sym, ap, ◌∙◌, true, false, List, [], ◌∷◌, ◌++◌, Text, text_eq,
  text_beq_iff, contains, arith,
}
use system_pilot.Cloud.Ingest.{InsertOutcome}
use system_pilot.Cloud.Server.Tallies.{
  Outcomes, accepted_of, decided_of, messages, rejected_of, rejected_of-AreReasoned, tally_all,
  tally_all-accepted, tally_all-highest, tally_all-rejected,
}
use system_pilot.Cloud.Server.{acknowledgement, empty_tally}
use system_pilot.Distributed.Acknowledgement.Soundness.{AreKnown, Decides, rejected_ids}
use system_pilot.Distributed.Acknowledgement.{accepted_records, ids_of}
use system_pilot.Distributed.Distinct.{IsDistinct}

contains_first : (id : Text) (ids : List Text) → contains id (id ∷ ids) ≡ true
unfolding contains
contains_first id ids = ground (arith, text_beq_iff id id)

-- Every message is decided, and nothing else.
contains-decided_of :
    (id : Text) (ps : Outcomes) → contains id (decided_of ps) ≡ contains id (ids_of (messages ps))
unfolding contains
contains-decided_of id [] = refl
contains-decided_of id ((r, InsertOutcome.accepted) ∷ ps) =
    ground (arith, contains-decided_of id ps)
contains-decided_of id ((r, InsertOutcome.sequence_conflict) ∷ ps) = ground (
  arith,
  contains-decided_of id ps,
  contains-append id (ids_of (accepted_of ps)) (rejected_ids (rejected_of ps)),
  contains-append id (ids_of (accepted_of ps)) (r.message_id ∷ rejected_ids (rejected_of ps)),
)
contains-decided_of id ((r, InsertOutcome.replay_conflict) ∷ ps) = ground (
  arith,
  contains-decided_of id ps,
  contains-append id (ids_of (accepted_of ps)) (rejected_ids (rejected_of ps)),
  contains-append id (ids_of (accepted_of ps)) (r.message_id ∷ rejected_ids (rejected_of ps)),
)

IsDistinct-insert :
    (id : Text) (xs ys : List Text)
    → contains id (xs ++ ys) ≡ false
    → IsDistinct (xs ++ ys)
    → IsDistinct (xs ++ (id ∷ ys))
unfolding contains
IsDistinct-insert id [] ys h d = (h, d)
IsDistinct-insert id (x ∷ xs) ys h d = ground (
  arith,
  IsDistinct-insert id xs ys,
  contains-append x xs ys,
  contains-append x xs (id ∷ ys),
  text_beq_iff x id,
  text_beq_iff id x,
)

decided_of-IsDistinct :
    (ps : Outcomes) → IsDistinct (ids_of (messages ps)) → IsDistinct (decided_of ps)
decided_of-IsDistinct [] d = tt
decided_of-IsDistinct ((r, InsertOutcome.accepted) ∷ ps) d =
    (contains-decided_of r.message_id ps ∙ d.0, decided_of-IsDistinct ps d.1)
decided_of-IsDistinct ((r, InsertOutcome.sequence_conflict) ∷ ps) d =
    IsDistinct-insert r.message_id (ids_of (accepted_of ps)) (rejected_ids (rejected_of ps))
      (contains-decided_of r.message_id ps ∙ d.0) (decided_of-IsDistinct ps d.1)
decided_of-IsDistinct ((r, InsertOutcome.replay_conflict) ∷ ps) d =
    IsDistinct-insert r.message_id (ids_of (accepted_of ps)) (rejected_ids (rejected_of ps))
      (contains-decided_of r.message_id ps ∙ d.0) (decided_of-IsDistinct ps d.1)

-- A list of IDs names, among the messages, exactly the accepted ones.
abbrev Names : List Text → Outcomes → Type 0
Names ids [] = Unit
Names ids ((r, InsertOutcome.accepted) ∷ ps) = (contains r.message_id ids ≡ true) × Names ids ps
Names ids ((r, InsertOutcome.sequence_conflict) ∷ ps) =
    (contains r.message_id ids ≡ false) × Names ids ps
Names ids ((r, InsertOutcome.replay_conflict) ∷ ps) =
    (contains r.message_id ids ≡ false) × Names ids ps

Names-cons :
    (id : Text) (ids : List Text) (ps : Outcomes)
    → contains id (ids_of (messages ps)) ≡ false
    → Names ids ps
    → Names (id ∷ ids) ps
unfolding contains
Names-cons id ids [] h n = tt
Names-cons id ids ((r, InsertOutcome.accepted) ∷ ps) h n = ground (arith, Names-cons id ids ps)
Names-cons id ids ((r, InsertOutcome.sequence_conflict) ∷ ps) h n =
    ground (arith, Names-cons id ids ps, text_beq_iff id r.message_id, text_beq_iff r.message_id id)
Names-cons id ids ((r, InsertOutcome.replay_conflict) ∷ ps) h n =
    ground (arith, Names-cons id ids ps, text_beq_iff id r.message_id, text_beq_iff r.message_id id)

absent-accepted :
    (id : Text) (ps : Outcomes)
    → contains id (ids_of (messages ps)) ≡ false
    → contains id (ids_of (accepted_of ps)) ≡ false
absent-accepted id ps h = ground (
  arith,
  contains-decided_of id ps,
  contains-append id (ids_of (accepted_of ps)) (rejected_ids (rejected_of ps)),
)

accepted_of-Names :
    (ps : Outcomes) → IsDistinct (ids_of (messages ps)) → Names (ids_of (accepted_of ps)) ps
accepted_of-Names [] d = tt
accepted_of-Names ((r, InsertOutcome.accepted) ∷ ps) d = (
  ground (arith, contains_first r.message_id (ids_of (accepted_of ps))),
  Names-cons r.message_id (ids_of (accepted_of ps)) ps d.0 (accepted_of-Names ps d.1),
)
accepted_of-Names ((r, InsertOutcome.sequence_conflict) ∷ ps) d =
    (absent-accepted r.message_id ps d.0, accepted_of-Names ps d.1)
accepted_of-Names ((r, InsertOutcome.replay_conflict) ∷ ps) d =
    (absent-accepted r.message_id ps d.0, accepted_of-Names ps d.1)

accepted_records-Names :
    (ids : List Text) (ps : Outcomes)
    → Names ids ps
    → accepted_records ids (messages ps) ≡ accepted_of ps
unfolding accepted_records
accepted_records-Names ids [] n = refl
accepted_records-Names ids ((r, InsertOutcome.accepted) ∷ ps) n =
    rw n.0 (ap (◌∷◌ r) (accepted_records-Names ids ps n.1))
accepted_records-Names ids ((r, InsertOutcome.sequence_conflict) ∷ ps) n =
    rw n.0 (accepted_records-Names ids ps n.1)
accepted_records-Names ids ((r, InsertOutcome.replay_conflict) ∷ ps) n =
    rw n.0 (accepted_records-Names ids ps n.1)

-- IDs that a list contains all stand in it.
AreKnown-by :
    (known ids : List Text)
    → ((id : Text) → contains id ids ≡ true → contains id known ≡ true)
    → AreKnown known ids
unfolding contains
AreKnown-by known [] h = tt
AreKnown-by known (id ∷ ids) h = (
  h id (ground (arith, text_beq_iff id id)),
  AreKnown-by known ids (λ j there. h j (ground (arith, there))),
)

contains_left :
    (id : Text) (xs ys : List Text) → contains id xs ≡ true → contains id (xs ++ ys) ≡ true
contains_left id xs ys h = ground (arith, contains-append id xs ys)

contains_right :
    (id : Text) (xs ys : List Text) → contains id ys ≡ true → contains id (xs ++ ys) ≡ true
contains_right id xs ys h = ground (arith, contains-append id xs ys)

decided_of-ne-nil : (ps : Outcomes) → messages ps ≢ [] → decided_of ps ≢ []
unfolding contains
decided_of-ne-nil [] some_message empty = some_message refl
decided_of-ne-nil ((r, o) ∷ ps) some_message empty =
    let there =
      contains-decided_of r.message_id ((r, o) ∷ ps)
      ∙ contains_first r.message_id (ids_of (messages ps)) in
    let nowhere = ap (contains r.message_id) empty in ground (arith, there, nowhere)

-- What the collector says of distinct messages keeps the protocol's rules.
pub tally_all-Decides :
    (ps : Outcomes)
    → IsDistinct (ids_of (messages ps))
    → messages ps ≢ []
    → Decides (acknowledgement (tally_all ps empty_tally)) (messages ps)
tally_all-Decides ps d some_message =
    let accepted = tally_all-accepted ps empty_tally in
    let rejected = tally_all-rejected ps empty_tally in
    record {
      accepted_known = rw accepted (
          AreKnown-by (ids_of (messages ps)) (ids_of (accepted_of ps)) (λ id there.
            sym (contains-decided_of id ps) ∙ contains_left id (ids_of (accepted_of ps)) _ there));
      rejected_known = rw rejected (
          AreKnown-by (ids_of (messages ps)) (rejected_ids (rejected_of ps)) (λ id there.
            sym (contains-decided_of id ps) ∙ contains_right id (ids_of (accepted_of ps)) _ there));
      reasoned = rw rejected (rejected_of-AreReasoned ps);
      once = rw (accepted, rejected) (decided_of-IsDistinct ps d);
      highest = λ n stated.
          rw
            (accepted, accepted_records-Names (ids_of (accepted_of ps)) ps (accepted_of-Names ps d))
            (sym (tally_all-highest ps empty_tally) ∙ stated);
      delay = λ n stated. absurd (ground (arith, stated));
      some_decision = rw (accepted, rejected) (decided_of-ne-nil ps some_message);
    }
