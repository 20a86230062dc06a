-- ===== src/Tests/Daemon.antt =====
-- The listener of src/daemon.rs at concrete messages.
use system_pilot.Abi.Words.{Endian, from_bytes, word}
use system_pilot.Alert.{StateFile, Write}
use system_pilot.Base.Map.{contains_key}
use system_pilot.Base.Texts.{decimal, text}
use system_pilot.Base.{
  ℕ, ◌≡◌, refl, true, false, List, [], ◌∷◌, ◌++◌, none, some, nat_eq, replicate, arith,
}
use system_pilot.Daemon.Listener.Agreement.{Chain, listen_parses}
use system_pilot.Daemon.Listener.{listen, listen_from, on_message}
use system_pilot.Daemon.Queue.{Records, event_frames}
use system_pilot.Daemon.Recording.{run_frames-Records}
use system_pilot.Daemon.Tree.{run_frames, run_frames-tree}
use system_pilot.Daemon.{Daemon, EventCalls, Formats, describe_exit_status, on_frame}
use system_pilot.Distributed.Redaction.{default_policy}
use system_pilot.Json.{null}
use system_pilot.Error.{AppError, ok, err}
use system_pilot.Export.{PublishCalls}
use system_pilot.Netlink.{Frame, parse_connector, parse_frames, parse_from, parse_message, read_u32}
use system_pilot.Spool.{Calls}

abbrev formats : Formats
formats = record {
  event_value = λ e. ok null;
  alert_value = λ a. ok null;
  encode = λ e. err AppError.protocol;
  is_ip = λ t. false;
}

abbrev no_calls : Calls
no_calls = record {
  now = none;
  prepares = false;
  lists = false;
  writes = false;
  inspects = λ _. false;
  reads = λ _. false;
  renames = λ _. false;
  removes = λ _. false;
}

abbrev publishing : PublishCalls
publishing = record { numbering = no_calls; appending = no_calls; counting = no_calls }

abbrev calls : ℕ → EventCalls
calls n = record {
  comm = λ pid. text "sh";
  parent = λ pid. 1;
  now = n;
  publishing = publishing;
  published_at = n;
  on_alert = λ a. record { write = Write.committed; publishing = publishing; published_at = n };
}

-- A daemon that knows process 7 and exports nothing.
abbrev daemon : Daemon
daemon = record {
  tree = (7, record { pid = 7; ppid = 1; name = text "old"; state = b'S' }) ∷ [];
  events = [];
  publisher = record {
    has_sender = false;
    node_id = text "n";
    attributes = [];
    metrics = record {
      queued = 0;
      sent = 0;
      retried = 0;
      rejected = 0;
      dropped = 0;
      last_acknowledgement_unix_nanos = 0;
      spool_bytes = 0;
      quarantined = 0;
      persistence_failures = 0;
    };
    spool = none;
    redaction = default_policy;
  };
  alerts = record { rules = [] };
  alert_state = record {
    file = StateFile.missing;
    state = record { schema_version = 1; records = [] };
  };
  netlink_state = 1;
  dropped_events = 0;
  connector_confirmed = true;
  handled = 0;
}

-- A whole message: process 7 executes.
abbrev exec_of_7 : List ℕ
exec_of_7 =
    (76 ∷ 0 ∷ 0 ∷ 0 ∷ 3 ∷ replicate 11 0)
    ++ ((1 ∷ 0 ∷ 0 ∷ 0 ∷ 1 ∷ replicate 15 0)
        ++ ((2 ∷ 0 ∷ 0 ∷ 0 ∷ replicate 12 0) ++ (7 ∷ 0 ∷ 0 ∷ 0 ∷ replicate 20 0)))

exec_of_7-Chain : Chain Endian.little formats calls exec_of_7 0
unfolding word from_bytes
exec_of_7-Chain =
    Chain.message 0 (omega arith) (omega arith) (λ h. omega arith) (Chain.ended 76 refl)

listen_parses_example :
    (fs : List Frame) × (parse_frames Endian.little exec_of_7 ≡ some fs)
    × (listen Endian.little formats calls exec_of_7 daemon
        ≡ some (run_frames formats calls fs daemon, true))
listen_parses_example =
    listen_parses Endian.little formats calls exec_of_7 daemon exec_of_7-Chain refl

-- A message that ends behind its kind of event, and an empty one behind it: the audited parser finds
-- nothing, and the listener takes what stands in the second message for the process.
abbrev cut_exec : List ℕ
cut_exec =
    (40 ∷ 0 ∷ 0 ∷ 0 ∷ 3 ∷ replicate 11 0)
    ++ ((1 ∷ 0 ∷ 0 ∷ 0 ∷ 1 ∷ replicate 15 0)
        ++ ((2 ∷ 0 ∷ 0 ∷ 0 ∷ []) ++ (24 ∷ 0 ∷ 0 ∷ 0 ∷ replicate 8 0) ++ (99 ∷ replicate 11 0)))

parser_ignores_cut_exec : parse_frames Endian.little cut_exec ≡ some []
unfolding parse_frames parse_from parse_message parse_connector read_u32 word from_bytes
parser_ignores_cut_exec = refl

listener_reads_on :
    listen Endian.little formats calls cut_exec daemon
    ≡ some (on_frame formats calls (Frame.exec 99) daemon, true)
unfolding listen listen_from on_message word from_bytes
listener_reads_on = refl

abbrev life_of_8 : List Frame
life_of_8 = Frame.fork 7 8 ∷ (Frame.exec 8 ∷ (Frame.exit 8 9 17 ∷ []))

run_frames-tree_example : contains_key 8 (run_frames formats calls life_of_8 daemon).tree ≡ false
unfolding contains_key
run_frames-tree_example = run_frames-tree formats calls 8 life_of_8 daemon

run_frames-Records_example :
    Records (event_frames life_of_8) daemon (run_frames formats calls life_of_8 daemon)
run_frames-Records_example =
    run_frames-Records formats calls life_of_8 daemon
      (record { queue = omega arith; counter = omega arith })

describes_a_core_dump : describe_exit_status 139 ≡ text "terminated by signal 11 (core dumped)"
unfolding describe_exit_status decimal
describes_a_core_dump = refl

describes_a_failure : describe_exit_status 256 ≡ text "exited with code 1"
unfolding describe_exit_status decimal
describes_a_failure = refl
