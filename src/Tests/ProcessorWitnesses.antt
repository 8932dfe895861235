-- ===== src/Tests/ProcessorWitnesses.antt =====
-- The theorems of the event processor at concrete inputs: a command, its response and the close of
-- the connection.
use mongodb_dam.Common.{
  ℕ, ◌%◌, ◌^◌, ◌≡◌, refl, true, false, none, some, Bytes, List, [], ◌∷◌, ◌++◌, codes, length,
  to_ascii_lowercase,
}
use mongodb_dam.Common.Int.{pos}
use mongodb_dam.Common.Outcome.{ok}
use mongodb_dam.Protocol.Types.{MongoCommand}
use mongodb_dam.Protocol.Message.{Message}
use mongodb_dam.Common.Space.{is_blank}
use mongodb_dam.Schema.Types.{process_lifecycle}
use mongodb_dam.Schema.Validate.{validate}
use mongodb_dam.Observer.State.{
  KernelEvent, CapturedKernelEvent, ProcessorConfig, Host, new_processor,
}
use mongodb_dam.Observer.Codes.{event_connection, event_process, op_tcp_close, op_process_exit}
use mongodb_dam.Observer.PodUid.{is_uid_from, normalized, extract_pod_uid}
use mongodb_dam.Observer.Proc.{process_executable}
use mongodb_dam.Observer.PodUid.Form.{
  IsUid, none_before, extract_pod_uid-IsUid, extract_pod_uid-append,
}
use mongodb_dam.Observer.Events.{Event, Processor, seed, event_from_seed, event}
use mongodb_dam.Observer.Messages.{process_message}
use mongodb_dam.Observer.ConnectionEvents.{process_connection}
use mongodb_dam.Observer.Kinds.{exited, process_exec_or_exit}
use mongodb_dam.Observer.Processor.{process}
use mongodb_dam.Observer.Matching.{
  IsAnswer, Answers, process_message-answered_once, process_message-Answers,
}
use mongodb_dam.Observer.Released.{
  IsReleased, IsForgotten, process_connection-IsReleased, process_exec_or_exit-IsForgotten,
}
use mongodb_dam.Observer.Runs.{Run, done, emit}
use mongodb_dam.Observer.Runs.Accepted.{
  IsNamed, batch_of, new_processor-Emits, new-IsValid, validate-Run,
}
use mongodb_dam.Observer.Sound.{AllEvents, IsValid, Sound}
use mongodb_dam.Observer.Sound.Process.{process-Sound}
use mongodb_dam.Tests.Samples.{plain, Json, ping_frame}

abbrev pub config : ProcessorConfig
config = record {
  customer_id = codes "customer";
  tenant_id = codes "tenant";
  source_id = codes "source";
  regional_cell_id = codes "cell";
  sensor_id = codes "sensor";
  node_name = codes "node";
  cluster_name = codes "cluster";
  host_proc = codes "/none";
  max_message_bytes = 1048576;
  cpu_profile_hz = 0;
  principal_hash_salt = some (codes "salt");
  capture_query_content = true;
}

-- A host without processes
abbrev pub host : Host (Unit {0})
host = record {
  read_link = λ _ _. none;
  read_to_string = λ _ _. none;
  now_utc = tt;
  instant = 0;
  rank = λ _. 0;
}

abbrev raw_event : ℕ → ℕ → Bytes → KernelEvent
raw_event event_type operation bytes = record {
  timestamp_ns = 5000;
  connection_key = 77;
  cgroup_id = 88;
  duration_ns = 0;
  bytes = length bytes;
  result = pos 0;
  pid = 42;
  tgid = 42;
  uid = 999;
  gid = 999;
  fd = pos 9;
  original_len = length bytes;
  captured_len = length bytes;
  event_type = event_type;
  direction = 0;
  source = 1;
  operation = operation;
  comm = codes "mongod";
  data_bytes = bytes;
}

abbrev captured : KernelEvent → CapturedKernelEvent
captured raw = record { raw = raw; user_stack_addresses = []; kernel_stack_addresses = [] }

abbrev pub start : Processor plain host
start = new_processor config

process-Sound_example :
    Sound plain config 0 (process plain host start (captured (raw_event 1 0 ping_frame)))
process-Sound_example =
    process-Sound plain host config 0 start (captured (raw_event 1 0 ping_frame))
      (new-IsValid plain config)

-- A command and its response
abbrev command : MongoCommand Json
command = record {
  name = codes "ping";
  database = some (codes "a");
  collection = none;
  auth_mechanism = none;
  principal = none;
  speculative_auth = false;
  delete_scope = none;
  delete_statements = none;
  query = none;
}

abbrev request : Message plain
request = record {
  request_id = pos 7;
  response_to = pos 0;
  wire_bytes = 47;
  flags = 0;
  more_to_come = false;
  compressed = false;
  command = some command;
  status = none;
}

abbrev response : Message plain
response = record {
  request_id = pos 8;
  response_to = pos 7;
  wire_bytes = 38;
  flags = 0;
  more_to_come = false;
  compressed = false;
  command = none;
  status = none;
}

abbrev sent : KernelEvent
sent = raw_event 1 0 []

abbrev received : KernelEvent
received = record sent { timestamp_ns = 9000 }

process_message-Answers_example :
    ((process_message plain host start sent false request).0 ≡ [])
    × Answers plain host
        (IsAnswer plain host sent received request command response)
        5000
        (process_message plain host
          (process_message plain host start sent false request).1
          received
          false
          response).0
process_message-Answers_example =
    process_message-Answers plain host start sent received false false request response command refl
      refl refl refl refl refl refl

process_message-answered_once_example :
    process_message plain host
      (process_message plain host start sent false response).1
      received
      false
      response
    ≡ ([], (process_message plain host start sent false response).1)
process_message-answered_once_example =
    process_message-answered_once plain host start sent false response received false response refl
      refl refl refl

process_connection-IsReleased_example :
    IsReleased plain host
      (42, 77)
      (process_connection plain host start (raw_event event_connection op_tcp_close [])).1
process_connection-IsReleased_example =
    process_connection-IsReleased plain host start (raw_event event_connection op_tcp_close []) refl

process_exec_or_exit-IsForgotten_example :
    IsForgotten plain host 42
      (process_exec_or_exit plain host start (raw_event event_process op_process_exit [])).1
process_exec_or_exit-IsForgotten_example =
    process_exec_or_exit-IsForgotten plain host start (raw_event event_process op_process_exit [])
      refl

-- A run that ends a process
abbrev exit : CapturedKernelEvent
exit = captured (raw_event event_process op_process_exit [])

abbrev pub emitted : List (Event plain host) × Processor plain host
emitted = process_exec_or_exit plain host start exit.raw

abbrev pub exit_event : Event plain host
unfolding exited event_from_seed seed
exit_event =
    (event plain host (exited plain host start 42) exit.raw false (
      process_lifecycle (record {
        state = codes "exit";
        executable = process_executable host config.host_proc 42;
      }))).0

pub exit_run : Run plain start (exit_event ∷ []) emitted.1
unfolding process process_exec_or_exit exited event_from_seed seed
exit_run = emit host exit refl (done emitted.1)

new_processor-Emits_example :
    AllEvents plain config 0 (exit_event ∷ []) × IsValid plain config (1 % 2 ^ 64) emitted.1
new_processor-Emits_example = new_processor-Emits plain config emitted.1 (exit_event ∷ []) exit_run

pub config-IsNamed : IsNamed config
unfolding is_blank
config-IsNamed = record {
  customer = refl;
  tenant = refl;
  source = refl;
  cell = refl;
  sensor = refl;
  node = refl;
}

pub batch_named : is_blank (codes "batch") ≡ false
unfolding is_blank
batch_named = refl

validate-Run_example : validate (batch_of plain config (codes "batch") tt (exit_event ∷ [])) ≡ ok tt
validate-Run_example =
    validate-Run plain config emitted.1 exit_event [] (codes "batch") tt config-IsNamed batch_named
      exit_run

abbrev pod_uid : Bytes
pod_uid = codes "8F2B7A10_0c1d_4e5f_8a9b_0123456789ab"

abbrev dashed_uid : Bytes
dashed_uid = codes "8F2B7A10-0c1d-4e5f-8a9b-0123456789ab"

-- With underscores, as a systemd slice writes it
found_uid :
    extract_pod_uid (codes "/kubepods-pod" ++ pod_uid) ≡ some (to_ascii_lowercase dashed_uid)
unfolding extract_pod_uid
found_uid = refl

extract_pod_uid-IsUid_example : IsUid (to_ascii_lowercase dashed_uid)
extract_pod_uid-IsUid_example =
    extract_pod_uid-IsUid (codes "/kubepods-pod" ++ pod_uid) (to_ascii_lowercase dashed_uid)
      found_uid

is_uid-pod_uid : is_uid_from 0 (normalized pod_uid) ≡ true
unfolding is_uid_from
is_uid-pod_uid = refl

abbrev slices : Bytes
slices = codes "0::/kubepods.slice/kubepods-burstable.slice/kubepods-burstable-"

none-slices : none_before slices (codes "pod" ++ (pod_uid ++ codes ".slice")) ≡ true
unfolding none_before
none-slices = refl

extract_pod_uid-append_example :
    extract_pod_uid (slices ++ (codes "pod" ++ (pod_uid ++ codes ".slice")))
    ≡ some (to_ascii_lowercase (normalized pod_uid))
extract_pod_uid-append_example =
    extract_pod_uid-append slices pod_uid (codes ".slice") refl is_uid-pod_uid none-slices
