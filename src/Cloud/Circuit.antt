-- ===== src/Cloud/Circuit.antt =====
-- crates/syspilot-cloud/src/lib.rs: `DeliveryCircuit`. An `Instant` is a number of nanoseconds, and an
-- operation takes the present one.
use system_pilot.Base.{
  ℕ, ◌+◌, ◌-◌, ◌≤◌, ◌<◌, ◌≡◌, refl, ap, ◌∙◌, Bool, true, false, List, [], ◌∷◌, ◌++◌, Option, none,
  some, length, is_some, ltb, leb, if◌then◌else◌, arith,
}

pub record DeliveryCircuit : Type 0 where
  pub failures : ℕ
  pub opened_at : Option ℕ

-- `DeliveryCircuit::default`.
abbrev pub closed : DeliveryCircuit
closed = record { failures = 0; opened_at = none }

abbrev pub failure_limit : ℕ
failure_limit = 5

abbrev pub cooldown : ℕ
cooldown = 30_000_000_000

-- `opened.elapsed() >= COOLDOWN`.
abbrev pub is_cooled : ℕ → Option ℕ → Bool
is_cooled now none = false
is_cooled now (some opened) = leb cooldown (now - opened)

abbrev pub cooled : ℕ → DeliveryCircuit → DeliveryCircuit
cooled now c = if is_cooled now c.opened_at then closed else c

-- `is_open`.
unfoldable pub is_open : ℕ → DeliveryCircuit → DeliveryCircuit × Bool
is_open now c = let c' = cooled now c in (c', is_some c'.opened_at)

-- `u8::saturating_add(1)`.
abbrev pub saturating_suc : ℕ → ℕ
saturating_suc n = if ltb n 255 then n + 1 else 255

abbrev pub failed : ℕ → DeliveryCircuit → DeliveryCircuit
failed now c =
    let n = saturating_suc c.failures in
    record { failures = n; opened_at = if leb failure_limit n then some now else c.opened_at }

-- `record`.
unfoldable pub record_outcome : ℕ → Bool → DeliveryCircuit → DeliveryCircuit
record_outcome now true c = closed
record_outcome now false c = failed now c

-- What a worker does with the circuit: it asks, or it records an outcome.
pub data Use : Type 0 where
  asked : ℕ → Use
  succeeded : ℕ → Use
  failed_at : ℕ → Use

unfoldable pub use_circuit : Use → DeliveryCircuit → DeliveryCircuit
unfolding is_open record_outcome
use_circuit (Use.asked now) c = (is_open now c).0
use_circuit (Use.succeeded now) c = record_outcome now true c
use_circuit (Use.failed_at now) c = record_outcome now false c

unfoldable pub run : List Use → DeliveryCircuit → DeliveryCircuit
run [] c = c
run (u ∷ us) c = run us (use_circuit u c)

-- The circuit is open exactly from the fifth failure on, and counts within a `u8`.
pub record Inv (c : DeliveryCircuit) : Type 0 where
  pub within : c.failures ≤ 255
  pub open_iff : is_some c.opened_at ≡ leb failure_limit c.failures

use_circuit-Inv : (u : Use) (c : DeliveryCircuit) → Inv c → Inv (use_circuit u c)
unfolding use_circuit is_open record_outcome
use_circuit-Inv (Use.asked now) c i = ground arith
use_circuit-Inv (Use.succeeded now) c i = ground arith
use_circuit-Inv (Use.failed_at now) c i = ground arith

pub run-Inv : (us : List Use) (c : DeliveryCircuit) → Inv c → Inv (run us c)
unfolding run
run-Inv [] c i = i
run-Inv (u ∷ us) c i = run-Inv us (use_circuit u c) (use_circuit-Inv u c i)

-- Failures in a row, at the times of a list.
abbrev pub failures_at : List ℕ → List Use
failures_at [] = []
failures_at (t ∷ ts) = Use.failed_at t ∷ failures_at ts

many_failures :
    (k : ℕ) (ts : List ℕ) (c : DeliveryCircuit)
    → k ≤ 255
    → k ≤ c.failures + length ts
    → k ≤ (run (failures_at ts) c).failures
unfolding run use_circuit record_outcome
many_failures k [] c fits h = omega arith
many_failures k (t ∷ ts) c fits h = many_failures k ts (failed t c) fits (ground arith)

fifth_failure :
    (last : ℕ) (c : DeliveryCircuit)
    → 4 ≤ c.failures
    → (use_circuit (Use.failed_at last) c).opened_at ≡ some last
unfolding use_circuit record_outcome
fifth_failure last c h = ground arith

run-append : (us vs : List Use) (c : DeliveryCircuit) → run (us ++ vs) c ≡ run vs (run us c)
unfolding run
run-append [] vs c = refl
run-append (u ∷ us) vs c = run-append us vs (use_circuit u c)

asked_open :
    (last now : ℕ) (c : DeliveryCircuit)
    → c.opened_at ≡ some last
    → (now - last < cooldown → is_open now c ≡ (c, true))
      × (cooldown ≤ now - last → is_open now c ≡ (closed, false))
unfolding is_open
asked_open last now c h = (λ soon. ground arith, λ late. ground arith)

-- However the circuit was used before: once at least four failures in a row are followed by one more,
-- at time `last`, it is open when it is asked within the next thirty seconds, and closed again, its
-- failures forgotten, when it is asked later.
pub opens_and_cools :
    (us : List Use) (ts : List ℕ) (last now : ℕ)
    → 4 ≤ length ts
    → let c = run (us ++ (failures_at ts ++ (Use.failed_at last ∷ []))) closed in
      (now - last < cooldown → is_open now c ≡ (c, true))
      × (cooldown ≤ now - last → is_open now c ≡ (closed, false))
opens_and_cools us ts last now h =
    let before = run us closed in
    let fifth =
      fifth_failure last (run (failures_at ts) before)
        (many_failures 4 ts before (omega arith) (omega arith)) in
    let same : run (us ++ (failures_at ts ++ (Use.failed_at last ∷ []))) closed
        ≡ use_circuit (Use.failed_at last) (run (failures_at ts) before) =
      run-append us (failures_at ts ++ (Use.failed_at last ∷ [])) closed
      ∙ (run-append (failures_at ts) (Use.failed_at last ∷ []) before ∙ (unfold run in refl)) in
    asked_open last now _ (ap (λ c. c.opened_at) same ∙ fifth)
