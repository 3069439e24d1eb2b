-- ===== src/Main.antt =====
-- `main`: the start of the server and its loop over connections.
pub mod Laws
pub mod Answers
pub mod Course
pub mod Follows
pub mod Reference
pub mod Networks
pub mod Start
use network_analyser_using_r.Base.{
  ◌≡◌, ℕ, zero, suc, ◌+◌, ◌-◌, ◌%◌, ◌≤◌, Bool, true, false, Bytes, List, [], ◌∷◌, ◌++◌, Option,
  none, some, if◌then◌else◌, ℤ, pos, negsuc, length, take, replicate, ◌==◌,
}
use network_analyser_using_r.Outcome.{Outcome, ok, exit, fault, hang, or_fault, ◌>>=◌}
use network_analyser_using_r.CString.{c_string}
use network_analyser_using_r.State.{
  PacketInfo, CaptureInfo, Server, Platform, max_packet_info_count, max_ssid_char_count,
  max_output_buffer_size,
}
use network_analyser_using_r.Capture.{Pcap}
use network_analyser_using_r.Command.{process_client_command}

abbrev pub bufsize : ℕ
bufsize = 1024

-- What the system answers in one round of the loop: whether `accept`, `gethostbyaddr` and
-- `inet_ntoa` succeed, the bytes that `read` stores or none for an error, libpcap during the
-- command, and whether `write` succeeds.
pub record Connection : Type 0 where
  pub accepted : Bool
  pub resolved : Bool
  pub named : Bool
  pub received : Option Bytes
  pub pcap : Pcap
  pub written : Bool

-- What the server shows from outside: the answers that it writes, and how it ends. With no more
-- connections it waits in `accept`.
pub data Trace : Type 0 where
  waiting : Trace
  exited : ℕ → Trace
  crashed : Trace
  hung : Trace
  answer : Bytes → Trace → Trace

-- `error`: a message, and `exit(1)`.
abbrev pub error {ℓ} : {A : Type ℓ} → Outcome A
error = exit 1

abbrev pub check : Bool → Outcome (Unit {0})
check b = if b then ok tt else error

-- The command buffer after `bzero` and a `read` of these bytes.
unfoldable pub command_buffer : Bytes → Bytes
command_buffer bytes = take bufsize bytes ++ replicate (bufsize - length bytes) 0

abbrev pub or_error {ℓ} : {A : Type ℓ} → Option A → Outcome A
or_error none = error
or_error (some a) = ok a

module _ (p : Platform) (fuel : ℕ) where
  -- One round of the loop: the answer, and the globals after it. `printf` of the command and
  -- `strlen` of the output want a NUL.
  unfoldable pub handle_connection : Connection → Server → Outcome (Bytes × Server)
  handle_connection c s = do
    _ ← check c.accepted
    _ ← check c.resolved
    _ ← check c.named
    bytes ← or_error c.received
    let client_cmd_buf = command_buffer bytes
    _ ← or_fault (c_string client_cmd_buf)
    s' ← process_client_command p fuel c.pcap client_cmd_buf s
    reply ← or_fault (c_string s'.output_buff)
    _ ← check c.written
    ok (reply, s')

  -- The trace of a round and of what follows it.
  abbrev pub continue : (Server → Trace) → Outcome (Bytes × Server) → Trace
  continue rest (ok (reply, s)) = answer reply (rest s)
  continue rest (exit code) = exited code
  continue rest fault = crashed
  continue rest hang = hung

  -- `while (1)`, over the connections that come.
  unfoldable pub serve : List Connection → Server → Trace
  serve [] s = waiting
  serve (c ∷ cs) s = continue (serve cs) (handle_connection c s)

-- The globals are zero at the start.
abbrev pub blank_packet : PacketInfo
blank_packet = record {
  ethernet_type = 0;
  data_rate_kbps = 0;
  antenna = 0;
  channel = 0;
  signal_pwr_dbm_at_antenna = 0;
  ssid = replicate max_ssid_char_count 0;
  ethernet_src_addr = replicate 18 0;
  ethernet_dst_addr = replicate 18 0;
  ethernet_bss_id = replicate 18 0;
}

unfoldable pub initial_server : Server
initial_server = record {
  cur_packet_count = 0;
  dup_packets_discarded = 0;
  packets_same_ssid_diff_bssid = 0;
  output_buff = replicate max_output_buffer_size 0;
  buff_ptr = 0;
  cap_info = record {
    packet_info_count = 0;
    packet_info_array = replicate max_packet_info_count blank_packet;
  };
  ntoa_buffer = replicate 18 0;
}

-- The system at the start: `atoi`, and whether a socket is made, bound to a port and listened on.
pub record System : Type 0 where
  pub atoi : Bytes → ℤ
  pub socket : Bool
  pub bind : ℕ → Bool
  pub listen : Bool

-- `(unsigned short)portno`.
unfoldable pub port_of : ℤ → ℕ
port_of (pos n) = n % 65536
port_of (negsuc n) = 65535 - n % 65536

abbrev pub start_trace : Trace → Outcome (Unit {0}) → Trace
start_trace rest (ok _) = rest
start_trace rest (exit code) = exited code
start_trace rest fault = crashed
start_trace rest hang = hung

-- The calls before the loop.
unfoldable pub start_server : System → Bytes → Outcome (Unit {0})
start_server sys port = do
  _ ← check sys.socket
  _ ← check (sys.bind (port_of (sys.atoi port)))
  check sys.listen

unfoldable pub main : Platform → ℕ → System → List Bytes → List Connection → Trace
main p fuel sys (name ∷ port ∷ []) cs =
    start_trace (serve p fuel cs initial_server) (start_server sys port)
main p fuel sys argv cs = exited 1
