-- ===== src/Daemon/Listener.antt =====
-- The loop of `netlink_listener` in src/daemon.rs over the messages that one call of `receive` gives.
pub mod Agreement
pub mod Termination
use system_pilot.Abi.Words.{Endian, word}
use system_pilot.Base.{
  ℕ, zero, suc, ◌+◌, Bool, true, false, not, ◌&&◌, List, Option, none, some, length, leb, ltb, ◌==◌,
  if◌then◌else◌,
}
use system_pilot.Daemon.{Daemon, EventCalls, Formats, on_frame}
use system_pilot.Netlink.{Frame, aligned, has_header, is_whole, missing_code}

abbrev pub max : ℕ → ℕ → ℕ
max a b = if ltb a b then b else a

-- What `NETLINK_STATE` and `connector_confirmed` become with the first message of the connector.
abbrev pub confirmed : Daemon → Daemon
confirmed d =
    if d.connector_confirmed then d else record d { netlink_state = 1; connector_confirmed = true }

module _ (e : Endian) (formats : Formats) (calls : ℕ → EventCalls) where
  -- The `match` on the kind of event at an offset; the length is that of all the bytes.
  abbrev pub on_event : List ℕ → ℕ → ℕ → Daemon → Daemon
  on_event bytes at what d =
      if what == 1 && leb (at + 32) (length bytes)
      then on_frame formats calls (Frame.fork (word e (at + 16) 4 bytes) (word e (at + 24) 4 bytes))
          d
      else if what == 2 && leb (at + 24) (length bytes)
      then on_frame formats calls (Frame.exec (word e (at + 16) 4 bytes)) d
      else if what == 0x8000_0000 && leb (at + 32) (length bytes)
      then on_frame formats calls
          (Frame.exit (word e (at + 16) 4 bytes) (word e (at + 24) 4 bytes)
            (word e (at + 28) 4 bytes))
          d
      else d

  -- A message of the connector at an offset.
  unfoldable pub on_message : List ℕ → ℕ → Daemon → Daemon
  on_message bytes cn d =
      if word e cn 4 bytes == 1 && word e (cn + 4) 4 bytes == 1
      then if leb (cn + 24) (length bytes)
        then on_event bytes (cn + 20) (word e (cn + 20) 4 bytes) (confirmed d)
        else confirmed d
      else d

  -- The code of an error message.
  abbrev pub rejection : List ℕ → ℕ → ℕ → ℕ
  rejection bytes offset size = if leb 20 size then word e (offset + 16) 4 bytes else missing_code

  -- The loop over the messages, on fuel. With the new state it says whether the listener goes on; `none`
  -- means that the fuel ran out.
  unfoldable pub listen_from : ℕ → List ℕ → ℕ → Daemon → Option (Daemon × Bool)
  listen_from zero bytes offset d = if has_header e bytes offset then none else some (d, true)
  listen_from (suc fuel) bytes offset d =
      let size = word e offset 4 bytes in
      let skipped = listen_from fuel bytes (offset + max (aligned e size) 16) d in
      let handled =
        listen_from fuel bytes (offset + max (aligned e size) 16)
          (on_message bytes (offset + 16) d) in
      if not (has_header e bytes offset)
      then some (d, true)
      else if not (is_whole e bytes offset size)
      then some (d, true)
      else if word e (offset + 4) 2 bytes == 2
      then if rejection bytes offset size == 0
        then skipped
        else some (record d { netlink_state = 2 }, false)
      else if not (leb (offset + 36) (length bytes))
      then some (d, true)
      else handled

  -- The body of the listener's loop for the bytes that were received.
  unfoldable pub listen : List ℕ → Daemon → Option (Daemon × Bool)
  listen bytes d = listen_from (length bytes) bytes 0 d
