-- ===== src/Cloud/Admission/Balance.antt =====
-- The permits that `Admission` of crates/syspilot-cloud/src/lib.rs gives out, and those that it has left.
use system_pilot.Base.Map.{
  Map, lookup, insert, contains_key, lookup-insert, contains_key-none, length-insert,
  contains_key-some,
}
use system_pilot.Base.{
  ℕ, ◌+◌, ◌-◌, ◌≤◌, ◌≡◌, ◌≢◌, inl, inr, refl, false, ◌||◌, List, [], ◌∷◌, Option, none, some, Eq,
  length, ◌==◌, arith, Bool-cases,
}
use system_pilot.Cloud.Admission.{
  acquire_both, drop_permit, given_back, is_full, new, retain, swept, try_acquire, with_entry,
}
use system_pilot.Cloud.Admission.Permits.{
  or_all, Gate, Step, IsWithin, count, without_one, free_at, IsKeyed, asked, step, run,
  retain-IsKeyed, length-retain-le, insert-IsKeyed, retain-IsWithin, insert-IsWithin, lookup-retain,
  count-without_one, length-without_one,
}

module _ {Key : Type 0} ⦃e : Eq Key⦄ where
  pub record Balanced (capacity : ℕ) (g : Gate Key) : Type 0 where
    pub whole : g.global + length g.permits ≡ capacity
    pub each : (k : Key) → free_at g.admission k + count k g.permits ≡ g.per_identity
    pub keyed : IsKeyed g.identities
    pub within : IsWithin g.per_identity g.identities
    pub few : length g.identities ≤ g.max_identities

  abbrev with_identities : Gate Key → Map Key ℕ → Gate Key
  with_identities g m = record g { admission = record (g.admission) { identities = m } }

  Balanced-with_identities :
      (capacity : ℕ) (g : Gate Key) (m : Map Key ℕ)
      → Balanced capacity g
      → IsKeyed m
      → IsWithin g.per_identity m
      → length m ≤ g.max_identities
      → ((j : Key) → or_all g.per_identity (lookup j m) ≡ free_at g.admission j)
      → Balanced capacity (with_identities g m)
  Balanced-with_identities capacity g m b u w l same = record {
    whole = b.whole;
    each = λ j. omega (arith, b.each j, same j);
    keyed = u;
    within = w;
    few = l;
  }

  swept-Balanced :
      (capacity : ℕ) (g : Gate Key) (k : Key)
      → Balanced capacity g
      → Balanced capacity (with_identities g (swept g.admission k))
  swept-Balanced capacity g k b = elim (Bool-cases (is_full g.admission k g.identities)) [
    | inr room ↦ simp room b
    | inl full ↦ simp full (
        Balanced-with_identities capacity g (retain g.per_identity g.identities) b
          (retain-IsKeyed g.per_identity g.identities b.keyed)
          (retain-IsWithin g.per_identity g.identities b.within)
          (omega (arith, length-retain-le g.per_identity g.identities, b.few))
          (λ j. lookup-retain j g.per_identity g.identities b.keyed b.within))
  ]

  entry-Balanced :
      (capacity : ℕ) (g : Gate Key) (k : Key)
      → Balanced capacity g
      → is_full g.admission k g.identities ≡ false
      → Balanced capacity (with_identities g (with_entry g.admission k g.identities))
  entry-Balanced capacity g k b room = elim (Bool-cases (contains_key k g.identities)) [
    | inl known ↦ simp known b
    | inr new_one ↦ simp new_one (
        Balanced-with_identities capacity g (insert k g.per_identity g.identities) b
          (insert-IsKeyed k g.per_identity g.identities b.keyed)
          (insert-IsWithin k g.per_identity g.per_identity g.identities (omega arith) b.within)
          (ground (arith, length-insert k g.per_identity g.identities))
          (λ j. ground (
            arith,
            lookup-insert k j g.per_identity g.identities,
            contains_key-none k g.identities,
            e.beq_iff k j,
          )))
  ]

  -- A permit of an identity goes out.
  granted-Balanced :
      (capacity : ℕ) (g : Gate Key) (k : Key) (free : ℕ)
      → Balanced capacity g
      → lookup k g.identities ≡ some free
      → free ≢ 0
      → g.global ≢ 0
      → Balanced capacity (record {
        admission = record (g.admission) {
          global = g.global - 1;
          identities = insert k (free - 1) g.identities;
        };
        permits = k ∷ g.permits;
      })
  granted-Balanced capacity g k free b found some_free some_global = record {
    whole = omega (arith, b.whole);
    each = λ j. ground (arith, b.each j, lookup-insert k j (free - 1) g.identities, e.beq_iff k j);
    keyed = insert-IsKeyed k (free - 1) g.identities b.keyed;
    within =
        insert-IsWithin k (free - 1) g.per_identity g.identities (ground (arith, b.each k))
          b.within;
    few = ground (
      arith,
      length-insert k (free - 1) g.identities,
      contains_key-some k g.identities free,
      b.few,
    );
  }

  both-Balanced :
      (capacity : ℕ) (g : Gate Key) (k : Key) (o : Option ℕ)
      → Balanced capacity g
      → lookup k g.identities ≡ o
      → Balanced capacity (asked g k (acquire_both g.admission k g.identities o))
  both-Balanced capacity g k none b found = b
  both-Balanced capacity g k (some free) b found = elim (Bool-cases (free == 0 || g.global == 0)) [
    | inl used_up ↦ simp used_up b
    | inr left ↦
        simp left
          (granted-Balanced capacity g k free b found (λ z. ground arith) (λ z. ground arith))
  ]

  ask-Balanced :
      (capacity : ℕ) (g : Gate Key) (k : Key)
      → Balanced capacity g
      → Balanced capacity (step (Step.ask k) g)
  unfolding step try_acquire
  ask-Balanced capacity g k b =
      let m = swept g.admission k in
      let b' = swept-Balanced capacity g k b in
      elim (Bool-cases (is_full g.admission k m)) [
        | inl full ↦ simp full b'
        | inr room ↦ simp room (
            both-Balanced capacity (with_identities g (with_entry g.admission k m)) k _
              (entry-Balanced capacity (with_identities g m) k b' room) refl)
      ]

  returned-Balanced :
      (capacity : ℕ) (g : Gate Key) (k : Key) (o : Option ℕ)
      → Balanced capacity g
      → count k g.permits ≢ 0
      → lookup k g.identities ≡ o
      → Balanced capacity
          (record { admission = given_back g.admission k o; permits = without_one k g.permits })
  returned-Balanced capacity g k none b held found = absurd (ground (arith, b.each k, found, held))
  returned-Balanced capacity g k (some free) b held found = record {
    whole = omega (arith, b.whole, length-without_one k g.permits held);
    each = λ j. ground (
      arith,
      b.each j,
      lookup-insert k j (free + 1) g.identities,
      e.beq_iff k j,
      count-without_one j k g.permits,
    );
    keyed = insert-IsKeyed k (free + 1) g.identities b.keyed;
    within =
        insert-IsWithin k (free + 1) g.per_identity g.identities (ground (arith, b.each k))
          b.within;
    few = ground (
      arith,
      length-insert k (free + 1) g.identities,
      contains_key-some k g.identities free,
      b.few,
    );
  }

  step-Balanced :
      (capacity : ℕ) (s : Step Key) (g : Gate Key)
      → Balanced capacity g
      → Balanced capacity (step s g)
  unfolding step drop_permit
  step-Balanced capacity (Step.ask k) g b = ask-Balanced capacity g k b
  step-Balanced capacity (Step.end k) g b = elim (Bool-cases (count k g.permits == 0)) [
    | inl idle ↦ simp idle b
    | inr held ↦
        simp held
          (returned-Balanced capacity g k (lookup k g.identities) b (λ z. ground arith) refl)
  ]

  abbrev pub opened : ℕ → Gate Key
  opened capacity = record { admission = new capacity; permits = [] }

  opened-Balanced : (capacity : ℕ) → Balanced capacity (opened capacity)
  unfolding new lookup
  opened-Balanced capacity = record {
    whole = omega arith;
    each = λ k. omega arith;
    keyed = tt;
    within = tt;
    few = omega arith;
  }

  run-Balanced :
      (capacity : ℕ) (ss : List (Step Key)) (g : Gate Key)
      → Balanced capacity g
      → Balanced capacity (run ss g)
  unfolding run
  run-Balanced capacity [] g b = b
  run-Balanced capacity (s ∷ ss) g b =
      run-Balanced capacity ss (step s g) (step-Balanced capacity s g b)

  -- Whatever requests come and end, in any order: the free permits and the held ones always make up
  -- the capacity, no permit of an identity is lost or made up when idle identities are swept, and
  -- there are never more identities than the limit.
  pub run-opened-Balanced :
      (capacity : ℕ) (ss : List (Step Key)) → Balanced capacity (run ss (opened capacity))
  run-opened-Balanced capacity ss =
      run-Balanced capacity ss (opened capacity) (opened-Balanced capacity)
