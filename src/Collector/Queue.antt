-- ===== src/Collector/Queue.antt =====
-- The bounded queue that crates/syspilot-collector/src/lib.rs takes from the crate
-- `crossbeam-queue`: its operations, with the documented behaviour as laws over its contents.
use system_pilot.Base.{
  ℕ, ◌-◌, ◌≤◌, ◌<◌, ◌≡◌, refl, Bool, not, ◌&&◌, List, [], ◌∷◌, ◌++◌, Option, none, some, length,
  leb, ltb, ◌==◌, if◌then◌else◌, ◌⊎◌, inl, inr, Bool-cases, ltb_iff, arith,
}
use Prim.Native.Nat.{bit_and}

-- `push` is `none` where the queue gives the element back.
pub record ArrayQueue (A : Type 0) : Type 1 where
  pub Queue : Type 0
  pub make : ℕ → Queue
  pub push : Queue → A → Option Queue
  pub pop : Queue → Option (A × Queue)
  pub contents : Queue → List A
  pub capacity : Queue → ℕ
  pub contents-make : (n : ℕ) → contents (make n) ≡ []
  pub capacity-make : (n : ℕ) → capacity (make n) ≡ n
  pub push_room :
      (q : Queue) (a : A)
      → length (contents q) < capacity q
      → (q' : Queue) × (push q a ≡ some q')
        × (contents q' ≡ contents q ++ (a ∷ []))
        × (capacity q' ≡ capacity q)
  pub push_full : (q : Queue) (a : A) → capacity q ≤ length (contents q) → push q a ≡ none
  pub pop_empty : (q : Queue) → contents q ≡ [] → pop q ≡ none
  pub pop_front :
      (q : Queue) (a : A) (rest : List A)
      → contents q ≡ a ∷ rest
      → (q' : Queue) × (pop q ≡ some (a, q')) × (contents q' ≡ rest) × (capacity q' ≡ capacity q)

-- `usize::is_power_of_two`.
unfoldable pub is_power_of_two : ℕ → Bool
is_power_of_two n = not (n == 0) && bit_and n (n - 1) == 0

module _ {A : Type 0} (Q : ArrayQueue A) where
  open Q use {
    Queue, make, push, pop, contents, capacity, contents-make, capacity-make, push_room, push_full,
    pop_empty, pop_front,
  }

  -- `SpscRing::new`; a failed assertion is `none`.
  unfoldable pub ring_new : ℕ → Option Queue
  ring_new capacity =
      if is_power_of_two capacity && leb 2 capacity then some (make (capacity - 1)) else none

  -- `SpscRing::try_push`.
  unfoldable pub ring_try_push : Queue → A → Option Queue
  ring_try_push ring value = push ring value

  -- `SpscRing::try_pop`.
  unfoldable pub ring_try_pop : Queue → Option (A × Queue)
  ring_try_pop ring = pop ring

  -- A push either finds room and appends, or finds none and changes nothing.
  pub push-cases :
      (q : Queue) (a : A)
      → ((length (contents q) < capacity q)
          × ((q' : Queue) × (push q a ≡ some q')
              × (contents q' ≡ contents q ++ (a ∷ []))
              × (capacity q' ≡ capacity q)))
        ⊎ ((capacity q ≤ length (contents q)) × (push q a ≡ none))
  push-cases q a = elim (Bool-cases (ltb (length (contents q)) (capacity q))) [
    | inl room ↦
        let fits : length (contents q) < capacity q = (ltb_iff _ _).0 room in
        inl (fits, push_room q a fits)
    | inr full ↦
        let none_left : capacity q ≤ length (contents q) = ground arith in
        inr (none_left, push_full q a none_left)
  ]

  -- A pop takes the front element, if there is one.
  pub pop-cases :
      (q : Queue)
      → ((contents q ≡ []) × (pop q ≡ none))
        ⊎ ((a : A) × (q' : Queue) × (contents q ≡ a ∷ contents q')
            × (pop q ≡ some (a, q'))
            × (capacity q' ≡ capacity q))
  pop-cases q = go (contents q) refl
    where
      go :
          (xs : List A)
          → contents q ≡ xs
          → ((contents q ≡ []) × (pop q ≡ none))
            ⊎ ((a : A) × (q' : Queue) × (contents q ≡ a ∷ contents q')
                × (pop q ≡ some (a, q'))
                × (capacity q' ≡ capacity q))
      go [] e = inl (e, pop_empty q e)
      go (a ∷ rest) e =
          let (q', popped, left, same) = pop_front q a rest e in
          inr (a, q', rw left e, popped, same)

  pub ring_new_empty :
      (n : ℕ) (q : Queue) → ring_new n ≡ some q → (contents q ≡ []) × (capacity q ≡ n - 1)
  unfolding ring_new
  ring_new_empty n q h = ground (arith, contents-make (n - 1), capacity-make (n - 1))
