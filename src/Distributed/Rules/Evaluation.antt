-- ===== src/Distributed/Rules/Evaluation.antt =====
-- Which engines and configurations are accepted, and what an engine announces.
use system_pilot.Alert.{ProcessAlert}
use system_pilot.Base.Strings.{is_blank, starts_with}
use system_pilot.Base.{
  ◌≡◌, ◌⊎◌, ◌∙◌, ◌++◌, ap, text_beq_iff, nat_eq, refl, ◌↔◌, Bool, true, false, List, [], ◌∷◌, map,
  Text, text_beq, text_eq, contains, All, arith, Bool-cases, inl, inr,
}
use system_pilot.Distributed.Distinct.{IsDistinct, IsFresh, IsFresh-nothing}
use system_pilot.Distributed.Envelope.{IsUsable, validate_policy, validate_policy_iff}
use system_pilot.Distributed.Rules.{
  ProcessAlertRule, ProcessAlertEngine, ProcessEvent, DistributedTelemetryConfig, validate_rule,
  ProcessNameMatch, name_matches, rule_matches, check_rules, engine, alerts_of, evaluate,
  validate_config,
}
use system_pilot.Error.{ok, >>=-ok}

abbrev pub ids_of_rules : List ProcessAlertRule → List Text
ids_of_rules = map (λ r. r.id)

abbrev pub IsNamed : ProcessAlertRule → Type 0
IsNamed r = (is_blank r.id ≡ false) × (is_blank r.process_name ≡ false)

check_rules_iff :
    (ids : List Text) (rs : List ProcessAlertRule)
    → (check_rules ids rs ≡ ok tt) ↔ (All IsNamed rs × IsFresh ids (ids_of_rules rs))
unfolding check_rules validate_rule
check_rules_iff ids [] = (λ _. (tt, tt), λ _. refl)
check_rules_iff ids (r ∷ rs) = ground (arith, check_rules_iff (r.id ∷ ids) rs)

-- The rules that `new` accepts.
pub record AreRules (rs : List ProcessAlertRule) : Type 0 where
  pub named : All IsNamed rs
  pub distinct : IsDistinct (ids_of_rules rs)

-- `new` makes an engine of a list of rules exactly if every rule has an ID and a process name and no
-- ID occurs twice, and then of all these rules, in their order.
pub engine_iff :
    (rs : List ProcessAlertRule) (g : ProcessAlertEngine)
    → (engine rs ≡ ok g) ↔ (AreRules rs × (g.rules ≡ rs))
unfolding engine
engine_iff rs g = (
  λ h.
      let (_, passed, made) = >>=-ok (check_rules [] rs) _ g h in
      let (named, fresh) = (check_rules_iff [] rs).0 passed in
      (
        record { named = named; distinct = (IsFresh-nothing (ids_of_rules rs)).0 fresh },
        ground arith,
      ),
  λ (valid, same).
      rw
        (
          (check_rules_iff [] rs).1
              (valid.named, (IsFresh-nothing (ids_of_rules rs)).1 valid.distinct),
          ← same,
        )
        refl,
)

-- The name is the pattern, or begins with it.
abbrev pub IsMatch : ProcessNameMatch → Text → Text → Type 0
IsMatch ProcessNameMatch.exact pattern name = name ≡ pattern
IsMatch ProcessNameMatch.prefix pattern name = (rest : Text) × (name ≡ pattern ++ rest)

-- One of the rules has this ID, is enabled, and its pattern matches the name.
abbrev pub Fires : Text → Text → List ProcessAlertRule → Type 0
Fires id name [] = ⊥
Fires id name (r ∷ rs) =
    ((r.id ≡ id) × (r.enabled ≡ true) × IsMatch r.match_type r.process_name name) ⊎ Fires id name rs

abbrev pub ids_of_alerts : List ProcessAlert → List Text
ids_of_alerts = map (λ a. a.rule_id)

starts_with_iff : (t p : Text) → (starts_with t p ≡ true) ↔ ((rest : Text) × (t ≡ p ++ rest))
unfolding starts_with
starts_with_iff t [] = (λ _. (t, refl), λ _. refl)
starts_with_iff [] (c ∷ p) = (λ h. absurd (ground arith), λ (rest, h). absurd (ground arith))
starts_with_iff (d ∷ t) (c ∷ p) = (
  λ h.
      let (rest, same) = (starts_with_iff t p).0 (ground arith) in
      let one : d ≡ c = ground arith in (rest, ap (λ x. x ∷ t) one ∙ ap (λ x. c ∷ x) same),
  λ (rest, h).
      let one : d ≡ c = ground arith in
      let same : t ≡ p ++ rest = ground arith in
      let tail = (starts_with_iff t p).1 (rest, same) in ground arith,
)

name_matches_iff :
    (m : ProcessNameMatch) (pattern name : Text)
    → (name_matches m pattern name ≡ true) ↔ IsMatch m pattern name
name_matches_iff ProcessNameMatch.exact pattern name = text_beq_iff name pattern
name_matches_iff ProcessNameMatch.prefix pattern name = starts_with_iff name pattern

rule_matches_iff :
    (r : ProcessAlertRule) (name : Text)
    → (rule_matches r name ≡ true) ↔ ((r.enabled ≡ true) × IsMatch r.match_type r.process_name name)
unfolding rule_matches
rule_matches_iff r name =
    let (forth, back) = name_matches_iff r.match_type r.process_name name in
    (λ h. (ground arith, forth (ground arith)), λ (on, match). let hit = back match in ground arith)

contains-alerts_of_iff :
    (e : ProcessEvent) (id : Text) (rs : List ProcessAlertRule)
    → (contains id (ids_of_alerts (alerts_of e rs)) ≡ true) ↔ Fires id e.name rs
unfolding contains alerts_of
contains-alerts_of_iff e id [] = (λ h. absurd (ground arith), λ h. absurd h)
contains-alerts_of_iff e id (r ∷ rs) = elim (Bool-cases (rule_matches r e.name)) [
  | inr miss ↦ rw miss (
    λ h. inr ((contains-alerts_of_iff e id rs).0 h),
    λ f. elim f [
      | inl (same, on, match) ↦
          absurd (let hit = (rule_matches_iff r e.name).1 (on, match) in ground arith)
      | inr later ↦ (contains-alerts_of_iff e id rs).1 later
    ],
  )
  | inl hit ↦ rw hit (
    λ h. elim (Bool-cases (text_beq r.id id)) [
      | inl same ↦
          let (on, match) = (rule_matches_iff r e.name).0 hit in
          inl ((text_beq_iff r.id id).0 same, on, match)
      | inr other ↦ inr ((contains-alerts_of_iff e id rs).0 (ground arith))
    ],
    λ f. elim f [
      | inl (same, on, match) ↦ let one = (text_beq_iff r.id id).1 same in ground arith
      | inr later ↦ let there = (contains-alerts_of_iff e id rs).1 later in ground arith
    ],
  )
]

alerts_absent :
    (e : ProcessEvent) (id : Text) (rs : List ProcessAlertRule)
    → contains id (ids_of_rules rs) ≡ false
    → contains id (ids_of_alerts (alerts_of e rs)) ≡ false
unfolding contains alerts_of
alerts_absent e id [] h = refl
alerts_absent e id (r ∷ rs) h = ground (arith, alerts_absent e id rs)

alerts_of-IsDistinct :
    (e : ProcessEvent) (rs : List ProcessAlertRule)
    → IsDistinct (ids_of_rules rs)
    → IsDistinct (ids_of_alerts (alerts_of e rs))
unfolding alerts_of
alerts_of-IsDistinct e [] d = tt
alerts_of-IsDistinct e (r ∷ rs) d = elim (Bool-cases (rule_matches r e.name)) [
  | inl hit ↦ rw hit (alerts_absent e r.id rs (ground arith), alerts_of-IsDistinct e rs d.1)
  | inr miss ↦ rw miss (alerts_of-IsDistinct e rs d.1)
]

-- An engine that `new` accepted announces an event under an ID exactly if the rule of that ID is enabled and the
-- process name is its pattern, or begins with it where it matches prefixes; and under no ID twice.
pub evaluate_exactly :
    (rs : List ProcessAlertRule) (g : ProcessAlertEngine) (e : ProcessEvent)
    → engine rs ≡ ok g
    → IsDistinct (ids_of_alerts (evaluate g e))
      × ((id : Text) → (contains id (ids_of_alerts (evaluate g e)) ≡ true) ↔ Fires id e.name rs)
unfolding evaluate
evaluate_exactly rs g e h =
    let (valid, same) = (engine_iff rs g).0 h in
    rw same (alerts_of-IsDistinct e rs valid.distinct, λ id. contains-alerts_of_iff e id rs)

-- What a telemetry configuration needs to be usable.
pub record IsReady (is_url : Text → Bool) (c : DistributedTelemetryConfig) : Type 0 where
  pub policy : IsUsable c.export_policy
  pub rules : AreRules c.process_alert_rules
  pub endpoint :
      c.enabled ≡ true
      → (is_blank c.endpoint ≡ false) × (is_blank c.node_id ≡ false) × (is_url c.endpoint ≡ true)

-- A configuration passes validation exactly if its policy is usable, its rules are named and have
-- different IDs, and, where telemetry is enabled, it names a node and an endpoint that is a URL.
pub validate_config_iff :
    (is_url : Text → Bool) (c : DistributedTelemetryConfig)
    → (validate_config is_url c ≡ ok tt) ↔ IsReady is_url c
unfolding validate_config
validate_config_iff is_url c = (
  λ h.
      let (_, usable, rest) = >>=-ok (validate_policy c.export_policy) _ tt h in
      let (g, made, last) = >>=-ok (engine c.process_alert_rules) _ tt rest in
      record {
        policy = (validate_policy_iff c.export_policy).0 usable;
        rules = ((engine_iff c.process_alert_rules g).0 made).0;
        endpoint = λ on. ground arith;
      },
  λ r.
      rw
        (
          (validate_policy_iff c.export_policy).1 r.policy,
          (engine_iff c.process_alert_rules (record { rules = c.process_alert_rules })).1
              (r.rules, refl),
        )
        (ground (arith, r.endpoint)),
)
