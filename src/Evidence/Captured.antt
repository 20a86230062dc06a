-- ===== src/Evidence/Captured.antt =====
-- What a capture of src/evidence.rs guarantees of its bundle.
use system_pilot.Base.Strings.{is_blank, is_whitespace}
use system_pilot.Base.Texts.{text, all_of, all_of-append, decimal, decimal-all_of, hex, hex-all_of}
use system_pilot.Base.{
  ℕ, ◌≡◌, ◌≤◌, ◌<◌, ◌+◌, ◌⊎◌, refl, subst, inl, inr, true, false, List, [], ◌∷◌, ◌++◌, Option, none,
  some, Text, text_beq, All, ltb, ◌==◌, Bool-cases, arith,
}
use system_pilot.Error.{AppError, AppResult, ok, err, err-ok, ok-inj}
use system_pilot.Evidence.Capture.{
  Found, Host, bundle_of, bundled, capture, case_id, find_target, found_process,
}
use system_pilot.Evidence.Directory.{file_of, is_id_byte, path}
use system_pilot.Evidence.{
  EvidenceBundleV1, FindingV1, ProcessTelemetry, validate, observation, sleep_finding,
  fault_finding,
}
use system_pilot.Json.{Value}

blank-append_dash : (s t : Text) → is_blank (s ++ (b'-' ∷ t)) ≡ false
unfolding is_blank is_whitespace
blank-append_dash [] t = refl
blank-append_dash (c ∷ s) t = ground (arith, blank-append_dash s t)

nonempty-append_dash : (s t : Text) → text_beq (s ++ (b'-' ∷ t)) [] ≡ false
nonempty-append_dash [] t = refl
nonempty-append_dash (c ∷ s) t = refl

-- An observation of that identifier is in the list.
abbrev pub IsObserved : Text → List Value → Type 0
IsObserved id [] = ⊥
IsObserved id (o ∷ os) = ((v : Value) × (o ≡ observation id v)) ⊎ IsObserved id os

-- Every finding refers to observations of the list only.
abbrev pub AreReferenced : List Value → List FindingV1 → Type 0
AreReferenced os = All (λ (f : FindingV1). All (λ (r : Text). IsObserved r os) f.evidence_refs)

AreReferenced-append :
    (os : List Value) (a b : List FindingV1)
    → AreReferenced os a
    → AreReferenced os b
    → AreReferenced os (a ++ b)
AreReferenced-append os [] b h k = k
AreReferenced-append os (f ∷ a) b h k = (h.0, AreReferenced-append os a b h.1 k)

module _ (pid : ℕ) (p : ProcessTelemetry) (os : List Value)
    (seen : IsObserved (text "process_snapshot") os) where
  sleep-AreReferenced : AreReferenced os (sleep_finding pid p)
  unfolding sleep_finding
  sleep-AreReferenced = elim (Bool-cases (text_beq p.state (text "D"))) [
    | inl y ↦ simp y ((seen, tt), tt)
    | inr n ↦ simp n tt
  ]

  fault-AreReferenced : AreReferenced os (fault_finding pid p)
  unfolding fault_finding
  fault-AreReferenced = elim (Bool-cases (ltb 0 p.majflt)) [
    | inl y ↦ simp y ((seen, tt), tt)
    | inr n ↦ simp n tt
  ]

-- What a target's telemetry gives, behind the system's.
found-AreReferenced :
    (h : Host) (target : Option Text) (f : Found) (system : Value)
    → find_target h target ≡ ok f
    → AreReferenced (system ∷ f.observations) f.findings
unfolding find_target found_process
found-AreReferenced h none f system e =
    subst (λ (f : Found). AreReferenced (system ∷ f.observations) f.findings)
      (ok-inj (record { observations = []; findings = []; missing = []; relationships = [] }) f e)
      tt
found-AreReferenced h (some target) f system e =
    let pid = h.find_pid_by_name target in
    let p = h.collect_process_telemetry pid in
    elim (Bool-cases (pid == 0)) [
      | inl y ↦ absurd (err-ok AppError.validation f (simp y at e))
      | inr n ↦
          let os = system ∷ (observation (text "process_snapshot") p.json ∷ []) in
          let seen : IsObserved (text "process_snapshot") os = inr (inl (p.json, refl)) in
          subst (λ (f : Found). AreReferenced (system ∷ f.observations) f.findings)
            (ok-inj (found_process pid p) f (simp n at e))
            (AreReferenced-append os (sleep_finding pid p) (fault_finding pid p)
              (sleep-AreReferenced pid p os seen) (fault-AreReferenced pid p os seen))
    ]

digit-is_id_byte : (d : ℕ) → d < 10 → is_id_byte (48 + d) ≡ true
digit-is_id_byte d h = ground arith

letter-is_id_byte : (d : ℕ) → 10 ≤ d → d < 16 → is_id_byte (87 + d) ≡ true
letter-is_id_byte d h k = ground arith

case_id-all_of : (h : Host) → all_of is_id_byte (case_id h) ≡ true
unfolding case_id all_of
case_id-all_of h =
    let number = λ (n : ℕ). decimal-all_of is_id_byte digit-is_id_byte n in
    all_of-append is_id_byte (hex h.ended) (b'-' ∷ (decimal h.id ++ (b'-' ∷ decimal h.counter)))
      (hex-all_of is_id_byte digit-is_id_byte letter-is_id_byte h.ended)
      (all_of-append is_id_byte (decimal h.id) (b'-' ∷ decimal h.counter) (number h.id)
        (number h.counter))

-- What a store asks of a bundle, and that its findings refer to what was observed.
pub record IsStorable (b : EvidenceBundleV1) : Type 0 where
  pub valid : validate b ≡ ok tt
  pub named : path b.case_id ≡ ok (file_of b.case_id)
  pub referenced : AreReferenced b.observations b.findings

bundle_of-IsStorable :
    (h : Host) (f : Found)
    → h.started ≤ h.ended
    → AreReferenced (observation (text "system_snapshot") h.system ∷ f.observations) f.findings
    → IsStorable (bundle_of h f)
unfolding bundle_of validate path
bundle_of-IsStorable h f clock refs =
    let rest = decimal h.id ++ (b'-' ∷ decimal h.counter) in
    let filled : is_blank (case_id h) ≡ false =
      unfold case_id in blank-append_dash (hex h.ended) rest in
    let some_id : text_beq (case_id h) [] ≡ false =
      unfold case_id in nonempty-append_dash (hex h.ended) rest in
    let ordered : ltb h.ended h.started ≡ false = ground arith in
    record {
      valid = simp (filled, ordered) refl;
      named = simp (some_id, case_id-all_of h) refl;
      referenced = refs;
    }

bundled-IsStorable :
    (h : Host) (target : Option Text) (r : AppResult Found) (b : EvidenceBundleV1)
    → h.started ≤ h.ended
    → find_target h target ≡ r
    → bundled h r ≡ ok b
    → IsStorable b
unfolding bundled
bundled-IsStorable h target (ok f) b clock found e = subst IsStorable (ok-inj (bundle_of h f) b e) (
    bundle_of-IsStorable h f clock
      (found-AreReferenced h target f (observation (text "system_snapshot") h.system) found))
bundled-IsStorable h target (err x) b clock found e = absurd (err-ok x b e)

-- A capture during which the clock does not go back gives a bundle that is valid, whose case ID the store takes, and whose
-- findings refer to its observations only.
pub capture-IsStorable :
    (h : Host) (target : Option Text) (b : EvidenceBundleV1)
    → h.started ≤ h.ended
    → capture h target ≡ ok b
    → IsStorable b
unfolding capture
capture-IsStorable h target b clock e =
    bundled-IsStorable h target (find_target h target) b clock refl e
