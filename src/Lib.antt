-- ===== src/Lib.antt =====
-- A model of the capture server for the Raspberry Pi, rpi-local-server/client_main.c, and of the
-- jobs of the Java client beside it, rpi-local-client, with proofs.
--
-- The server takes commands over TCP. On `capture` it lets libpcap capture 100 packets, keeps at
-- most 50 of them in a global array, no two beacons with one SSID and BSSID, and answers with a
-- JSON document for them; on `exit` it ends. The client fetches a configuration again and again,
-- repeats a capture as it says, and posts what the server answers.
--
-- Files, with the code that they model (in rpi-local-server/client_main.c, but for Client):
--   State      struct packet_info, struct capture_info, the global variables as one record that the
--              functions pass on, and the parameters Platform and RadiotapParser
--   Radiotap   parseRadioTap
--   Dedup      pkt_with_ssid_bssid_exists
--   Ethernet   parse_ethernet
--   Callback   packet_capture_callback
--   Capture    capture_packets
--   Json       writePacket and generateJson; Decimal has the numbers that they print
--   Command    process_client_command
--   Main       main and error
--   Client     of rpi-local-client/src/main/java/com/eurekabits: RpiConfig.java, ConfigSyncJob.java;
--              Client.Service and Client.Rest have RpiServiceImpl.java and
--              PacketCaptureTimerTask.java, Client.Binding
--              the data objects NetworkCaptureData.java, Packet.java and Packet_.java
--   CString    strings in character arrays, strcmp and the copying loops
--   Outcome    how a call ends: it returns, it ends the process, it reads or writes outside an object
--              (`fault`), or it is still looping when the fuel runs out (`hang`)
--   Base       shared names, and lists over the native numbers
--   Tests      concrete inputs
--
-- How they meet: main reads a command and calls process_client_command, which calls
-- capture_packets and generateJson. capture_packets hands packet_capture_callback to libpcap,
-- which calls parse_ethernet and, for a beacon, parseRadioTap. All of them share the global
-- variables. The invariant of these, State.Slots.IsServer, says that both packet counters agree
-- and are at most 50, that the array has 50 slots whose texts end within their fields, and that
-- the output buffer has its size. Dedup.Spec has the abstract view of the array, the list of the
-- keys captured; Callback.Step the contract of the callback on it, and Callback.Packet what it does
-- by what the packet holds; Dedup.Tally a capture as a fold
-- over the keys of its packets; Json.Text the document as a text; Json.Value a JSON value, how it
-- is written, and a reader for it; Json.Sound and Json.Cut the texts that the reader takes,
-- Json.Injective what a document tells;
-- State.Ranges the ranges of the radio measurements; Main.Course the server as its clients see it,
-- the packets of the last capture, with what each round makes of them, Main.Follows main against
-- it, and Main.Reference a server that answers from these packets alone, with the document that
-- Capture.Shown makes of them; Main.Networks the rounds in which nothing fails; Client.Sync the
-- register that the configuration job implements.
--
-- The client's task connects to the server, sends `capture`, reads the answer into an array of
-- 8192 bytes, as many as the server's output_buff has, and maps it to data objects. Client.Seen
-- says which data objects it gets from a document, Client.Injection what an SSID with quotes does
-- to them, Client.Partial what one read of a part of it gives. Client.Session lets the task meet
-- the answers of main, Client.Exact says which data objects it posts then, and Client.Rest has the
-- requests that both jobs send. Client.Sockets has the steps of a task on the fields of the
-- service that all tasks share, against a server that takes one connection after the other.
-- Client.Crossing and Client.Stuck let two tasks use them at the same time. Callback.Source and
-- Capture.Source say which packets the captured slots come from, Callback.Older and Capture.Older
-- with the measurements that a packet leaves out.
--
-- Integers: bytes, offsets and counters are natural numbers. The counters stay small, at most 50
-- packets, and in the statistics at most 50 times the packets of a capture, so the wrap-around of
-- `int` is left out. The `int` results of the libraries are the type ℤ of Base. The signal power
-- is kept as its byte, and read as a number with the sign of the machine's plain `char`. A channel
-- is read in the byte order of the machine.
--
-- Fuel: only the loop of parseRadioTap takes fuel. The iterator is not part of the program, so
-- nothing in it bounds the loop; fuel above the number of the fields that the iterator yields is
-- enough. The JSON reader takes a unit of fuel for each call, and each call reads a character, so
-- the length of the text is enough. Callback.Returns.IsReadable names the packets whose radiotap
-- fields are within the fuel and within the packet; a radiotap header that ends within the fuel
-- means both.
--
-- Parameters: the radiotap library (rpi-local-server/radiotap-parser.c is a copy of another
-- project), ntohs, the byte order and the sign of `char`, ether_ntoa and its static buffer,
-- libpcap, atoi and the sockets. For the client: java.util.Timer as the tasks that run, the reply
-- of the configuration service, whether scheduleAtFixedRate takes a delay and an interval, the
-- socket, Jackson's ObjectMapper, Spring's RestTemplate and the Base64 encoder. What the code
-- relies on is stated by IsPlatform, IsPcap and IsObjectMapper, the last with Client.Binding,
-- which says how the annotations of the data objects name the members. Client.Clean adds that
-- ether_ntoa writes hexadecimal digits and colons.
--
-- Not modelled: messages on the terminal, setsockopt, the names of clients, close, and the second
-- structure cap_info2, which the program passes around without a read or write. A write that is
-- out of bounds is a fault and has no further effect. A socket that the client has lost is never
-- closed in the model, while Java 8 closes it when it collects and finalizes the Socket. Of the
-- client: the calls of close, logging, hashCode, and the wiring of Spring and Quartz.
pub mod Base
pub mod Outcome
pub mod CString
pub mod State
pub mod Dedup
pub mod Radiotap
pub mod Ethernet
pub mod Callback
pub mod Capture
pub mod Decimal
pub mod Json
pub mod Command
pub mod Main
pub mod Client
pub mod Tests
