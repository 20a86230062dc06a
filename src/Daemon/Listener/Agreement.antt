-- ===== src/Daemon/Listener/Agreement.antt =====
-- The loop of `netlink_listener` in src/daemon.rs against the parser of src/netlink.rs.
use system_pilot.Abi.Words.{Endian, word}
use system_pilot.Base.{
  ℕ, zero, suc, ◌+◌, ◌-◌, ◌≤◌, ◌≡◌, ◌≢◌, refl, sym, ap, ◌∙◌, true, false, ◌&&◌, List, [], ◌∷◌, ◌++◌,
  some, length, length-drop, take, drop, drop_add, leb, ltb, ◌==◌, if◌then◌else◌, arith,
}
use system_pilot.Daemon.Listener.{listen, listen_from, max, on_message}
use system_pilot.Daemon.Tree.{run_frames, run_frames-append, run_frames-confirmed}
use system_pilot.Daemon.{Daemon, EventCalls, Formats}
use system_pilot.Netlink.{
  Frame, aligned, has_header, is_whole, parse_connector, parse_frames, parse_from, parse_message,
  read_u32,
}

module _ {A : Type 0} where
  take-take : (n m : ℕ) (xs : List A) → n ≤ m → take n (take m xs) ≡ take n xs
  take-take zero m xs h = refl
  take-take (suc n) zero xs h = absurd (omega arith)
  take-take (suc n) (suc m) [] h = refl
  take-take (suc n) (suc m) (x ∷ xs) h = ap (◌∷◌ x) (take-take n m xs (omega arith))

  take-drop-take :
      (n k m : ℕ) (xs : List A) → k + n ≤ m → take n (drop k (take m xs)) ≡ take n (drop k xs)
  take-drop-take n zero m xs h = take-take n m xs (omega arith)
  take-drop-take n (suc k) zero xs h = absurd (omega arith)
  take-drop-take n (suc k) (suc m) [] h = refl
  take-drop-take n (suc k) (suc m) (x ∷ xs) h = take-drop-take n k m xs (omega arith)

  length-take_within : (m : ℕ) (xs : List A) → m ≤ length xs → length (take m xs) ≡ m
  length-take_within zero xs h = refl
  length-take_within (suc m) [] h = absurd (omega arith)
  length-take_within (suc m) (x ∷ xs) h = ap suc (length-take_within m xs (omega arith))

-- A word of a part of the bytes.
word-part :
    (e : Endian) (k n o m : ℕ) (bytes : List ℕ)
    → k + n ≤ m
    → word e k n (take m (drop o bytes)) ≡ word e (o + k) n bytes
unfolding word
word-part e k n o m bytes h = rw (take-drop-take n k m (drop o bytes) h, ← drop_add o k bytes) refl

word-drop :
    (e : Endian) (k n o : ℕ) (bytes : List ℕ) → word e k n (drop o bytes) ≡ word e (o + k) n bytes
unfolding word
word-drop e k n o bytes = rw (← drop_add o k bytes) refl

module _ (e : Endian) (formats : Formats) (calls : ℕ → EventCalls) where
  -- The frames of an event at an offset, as the listener reads them.
  abbrev frames_at : List ℕ → ℕ → List Frame
  frames_at bytes at =
      if word e at 4 bytes == 1
      then Frame.fork (word e (at + 16) 4 bytes) (word e (at + 24) 4 bytes) ∷ []
      else if word e at 4 bytes == 2
      then Frame.exec (word e (at + 16) 4 bytes) ∷ []
      else if word e at 4 bytes == 0x8000_0000
      then Frame.exit (word e (at + 16) 4 bytes) (word e (at + 24) 4 bytes)
          (word e (at + 28) 4 bytes)
        ∷ []
      else []

  abbrev frames_of : List ℕ → ℕ → List Frame
  frames_of bytes cn =
      if word e cn 4 bytes == 1 && word e (cn + 4) 4 bytes == 1
      then frames_at bytes (cn + 20)
      else []

  on_message-frames_of :
      (bytes : List ℕ) (cn : ℕ) (d : Daemon)
      → cn + 52 ≤ length bytes
      → d.connector_confirmed ≡ true
      → on_message e formats calls bytes cn d ≡ run_frames formats calls (frames_of bytes cn) d
  unfolding on_message run_frames
  on_message-frames_of bytes cn d fits active =
      let fits_24 : leb (cn + 24) (length bytes) ≡ true = ground arith in
      let fits_44 : leb (cn + 20 + 24) (length bytes) ≡ true = ground arith in
      let fits_52 : leb (cn + 20 + 32) (length bytes) ≡ true = ground arith in
      simp (active, fits_24, fits_44, fits_52) (ground arith)

  parse_connector-frames_of :
      (bytes : List ℕ) (o size : ℕ)
      → 68 ≤ size
      → o + size ≤ length bytes
      → parse_connector e (take (size - 16) (drop (o + 16) bytes)) ≡ frames_of bytes (o + 16)
  unfolding parse_connector read_u32
  parse_connector-frames_of bytes o size full fits =
      let body = take (size - 16) (drop (o + 16) bytes) in
      let long : length body ≡ size - 16 =
        length-take_within (size - 16) (drop (o + 16) bytes)
          (omega (arith, length-drop (o + 16) bytes)) in
      let rest : length (drop 20 body) ≡ size - 36 = omega (arith, length-drop 20 body, long) in
      let at = λ (k j : ℕ) (h : k + 4 ≤ size - 16) (p : o + 16 + k ≡ j).
        word-part e k 4 (o + 16) (size - 16) bytes h ∙ ap (λ i. word e i 4 bytes) p in
      let idx = at 0 (o + 16) (omega arith) (omega arith) in
      let val = at 4 (o + 16 + 4) (omega arith) refl in
      let what = word-drop e 0 4 20 body ∙ at 20 (o + 16 + 20) (omega arith) refl in
      let first = word-drop e 16 4 20 body ∙ at 36 (o + 16 + 20 + 16) (omega arith) (omega arith) in
      let second =
        word-drop e 24 4 20 body ∙ at 44 (o + 16 + 20 + 24) (omega arith) (omega arith) in
      let third = word-drop e 28 4 20 body ∙ at 48 (o + 16 + 20 + 28) (omega arith) (omega arith) in
      let over_24 : ltb (length body) 24 ≡ false = ground arith in
      let over_4 : leb 4 (length body) ≡ true = ground arith in
      let over_8 : leb 8 (length body) ≡ true = ground arith in
      let event_4 : leb 4 (length (drop 20 body)) ≡ true = ground arith in
      let event_24 : leb 24 (length (drop 20 body)) ≡ true = ground arith in
      let event_32 : leb 32 (length (drop 20 body)) ≡ true = ground arith in
      simp
        (over_24, over_4, over_8, event_4, event_24, event_32, idx, val, what, first, second, third)
        (ground arith)

  parse_message-frames_of :
      (bytes : List ℕ) (o : ℕ)
      → 68 ≤ word e o 4 bytes
      → o + word e o 4 bytes ≤ length bytes
      → word e (o + 4) 2 bytes ≢ 2
      → parse_message e bytes o (word e o 4 bytes) ≡ frames_of bytes (o + 16)
  unfolding parse_message
  parse_message-frames_of bytes o full fits plain =
      let event : (word e (o + 4) 2 bytes == 2) ≡ false = ground arith in
      rw event (parse_connector-frames_of bytes o (word e o 4 bytes) full fits)

  -- Messages that follow one another and have room for every kind of event; none is an error.
  pub data Chain (bytes : List ℕ) : ℕ → Type 0 where
    ended : (o : ℕ) → has_header e bytes o ≡ false → Chain bytes o
    message :
        (o : ℕ)
        → 68 ≤ word e o 4 bytes
        → o + word e o 4 bytes ≤ length bytes
        → word e (o + 4) 2 bytes ≢ 2
        → Chain bytes (o + aligned e (word e o 4 bytes))
        → Chain bytes o

  -- A round of either loop.
  Agrees : ℕ → List ℕ → ℕ → Type 0
  Agrees fuel bytes o =
      (fs : List Frame) × (parse_from e fuel bytes o ≡ some fs)
      × ((d : Daemon)
          → d.connector_confirmed ≡ true
          → listen_from e formats calls fuel bytes o d ≡ some (run_frames formats calls fs d, true))

  loops_agree :
      (fuel : ℕ) (bytes : List ℕ) (o : ℕ)
      → length bytes ≤ o + fuel
      → Chain bytes o
      → Agrees fuel bytes o
  unfolding Agrees parse_from listen_from run_frames
  loops_agree zero bytes o enough (ended _ h) = ([], rw h refl, λ d active. rw h refl)
  loops_agree (suc fuel) bytes o enough (ended _ h) = ([], rw h refl, λ d active. rw h refl)
  loops_agree zero bytes o enough (message _ full fits plain more) = absurd (omega arith)
  loops_agree (suc fuel) bytes o enough (message _ full fits plain more) =
      let size = word e o 4 bytes in
      let (fs, parsed, listened) =
        loops_agree fuel bytes (o + aligned e size) (ground arith) more in
      let here = frames_of bytes (o + 16) in
      let header : has_header e bytes o ≡ true = ground arith in
      let whole : is_whole e bytes o size ≡ true = ground arith in
      let event : (word e (o + 4) 2 bytes == 2) ≡ false = ground arith in
      let room : leb (o + 36) (length bytes) ≡ true = ground arith in
      let step : max (aligned e size) 16 ≡ aligned e size = ground arith in
      let d_here = λ (d : Daemon). run_frames formats calls here d in
      (
        here ++ fs,
        rw (header, whole, parsed, parse_message-frames_of bytes o full fits plain) refl,
        λ d active.
            rw
              (
                header,
                whole,
                event,
                room,
                step,
                on_message-frames_of bytes (o + 16) d (omega arith) active,
              )
              (listened (d_here d) (run_frames-confirmed formats calls here d ∙ active)
                ∙ ap (λ x. some (x, true)) (sym (run_frames-append formats calls here fs d))),
      )

  -- A confirmed listener, given messages that have room for every kind of event and none of which is an
  -- error, goes on, having done for each frame that `parse_frames` finds in the bytes, in their order,
  -- what it does for such an event.
  pub listen_parses :
      (bytes : List ℕ) (d : Daemon)
      → Chain bytes 0
      → d.connector_confirmed ≡ true
      → (fs : List Frame) × (parse_frames e bytes ≡ some fs)
        × (listen e formats calls bytes d ≡ some (run_frames formats calls fs d, true))
  unfolding Agrees parse_frames listen
  listen_parses bytes d chain active =
      let (fs, parsed, listened) = loops_agree (length bytes) bytes 0 (omega arith) chain in
      (fs, parsed, listened d active)
