-- ===== src/Lib.antt =====
-- A model of nano-ngfw, a stateful firewall that replays a capture, and what its theorems show.
--
-- A capture goes frame by frame through Engine::process: the decoders give a header and a payload or
-- a failure status that is counted; the flow table finds or creates the session; zones, policy and
-- NAT judge a new one; the state machine follows its packets; App-ID reads its first payload, and
-- once it is decided the policy is asked again. Every 128 packets, and at the end, idle sessions are
-- retired.
--
-- - ByteView.antt: src/byteview.h. A view is a memory, an address and a length. Reads outside a
--   view, where NANO_ASSERT aborts, are `none`. ByteView/Access has the laws of reads,
--   ByteView/Window those of slice and from.
-- - Decode.antt: src/decode.h and src/decode.cpp, the decoders for Ethernet, IPv4, TCP and UDP. A
--   decoder takes the out-parameters as they are and gives what it leaves in them. Decode/Headers has
--   the header types. Decode/Checksum is about the sum of the header's words, Decode/Ipv4 and
--   Decode/L4 about what is accepted.
-- - Policy.antt: src/policy.h and the evaluation in src/policy.cpp. Policy/Prefix is about
--   ZoneRoute::contains, Policy/Zones about zone_for, Policy/Match about evaluate, Policy/Names about
--   the words for zones and verdicts.
-- - Flow.antt and Flow/Sessions: src/flow.h and src/flow.cpp. The hash map is an association list
--   whose order stands for the map's iteration order; the theorems hold for every order. Flow/Key is
--   about the key, Flow/Index about the map, Flow/Table about soundness, Flow/Aging and Flow/Retire
--   about age_out, Flow/Answer about lookup. Flow/View sees a table as a map from keys to
--   sessions, Flow/Order and Flow/Order/Tables compare tables whose maps differ in order, and Flow/Hash
--   is the hash of a key.
-- - TcpState.antt: src/tcp_state.cpp. TcpState/Diagram is about one packet, TcpState/Trace about
--   whole conversations.
-- - Nat.antt and Nat/Ports: src/nat.h and src/nat.cpp.
-- - AppId.antt and AppId/Sni: src/appid.h and src/appid.cpp. AppId/Sni/Walk is about extract_sni,
--   AppId/Total and AppId/Content about classify.
-- - Engine.antt: src/engine.h and src/engine.cpp, with one function for each stretch of process and
--   handle_l4: Engine/State has the counters and sweeps, Engine/Births new sessions, Engine/Packets
--   the packets of a session. Engine/Counting is about the verdict counters, Engine/Opening about new
--   sessions, Engine/Delivery about packets of a session, Engine/Invariant says what holds between
--   two frames, Engine/Sweeping is about sweeps and Engine/Stateful about strict mode. Engine/Carried
--   says what a property of engines asks of each part of process, Engine/Carried/Tracked carries it
--   through handle_l4 and Engine/Pipeline through process; Engine/Steady (the settings), Engine/Rules
--   with Engine/Rules/Born, Engine/Rules/Shifted and Engine/Rules/Kept (what the rule base says of
--   sessions), Engine/Accounting with Engine/Accounting/Frames (the number of frames) and
--   Engine/Translation with Engine/Translation/Ports (the translated ports) are such properties. Engine/Isolation and Engine/Isolation/Frames are about the
--   conversations that a frame is not part of.
-- - Pcap.antt: src/pcap.h and src/pcap.cpp, the reader of capture files over the bytes of a file.
--   Pcap/Format writes such files, Pcap/RoundTrip reads them back, Pcap/Accounting is about any file.
-- - Strings.antt: what the sources use of the C++ string library. Strings/Numbers is about decimal
--   numbers, Strings/Pieces about taking texts apart.
-- - Addresses.antt and Addresses/Quads: addresses as text, in src/decode.cpp, src/policy.cpp and
--   src/main.cpp.
-- - RuleFile.antt: Policy::parse, load_default and load_file of src/policy.cpp. RuleFile/Printed
--   writes a policy as a rule file, RuleFile/Tokens, RuleFile/Clauses and RuleFile/RoundTrip read it
--   back; RuleFile/Errors is about refused lines, RuleFile/Bounds about every policy that is left,
--   RuleFile/Default about the built-in one.
-- - Capture.antt: the engine that src/main.cpp sets up and its loop over the capture. Capture/Whole
--   is about a list of frames, Capture/Replay about a file, Capture/Idle about the frames after the last
--   one of a conversation.
-- - CommandLine.antt and CommandLine/RoundTrip: the arguments of main. Program.antt, Program/Ends and
--   Program/Shown: all of main, from its arguments to what it shows. The file system is an argument
--   of it, a function from paths to bytes.
-- - Output.antt: what the two kinds of output share. Report.antt with Report/Head, Report/Table and
--   Report/Cards: src/report.cpp, the HTML report as a text. Report/Escape is about escape;
--   Report/Markup says what the tags of a text are, and Report/Plain, Report/TableTags,
--   Report/CardTags and Report/Document are about those of the report.
-- - Console.antt and Console/Table: src/cli.cpp, what is printed as a text.
-- - Fuzz.antt and Fuzz/Returns: what the fuzz targets of fuzz/ run.
-- - Prelude.antt: names and lemmas that the others share. The Tests modules hold concrete inputs.
--
-- Numbers are natural numbers. Fields of 16, 32 and 64 bits wrap where the code increments or casts
-- them, an index of a rule or the number of a line is cast to a 32-bit `int`; sessions are named by 32-bit ids, so the theorems on the engine ask for fewer than 2^32 - 1
-- sessions. Bytes are cells of the memory modulo 256. The walks over a TLS ClientHello run on fuel
-- that exceeds the distance to the end of the record, and each round advances by 3 or 4 bytes at
-- least; the carry loop of the checksum runs 4 rounds, of which 3 are enough for a 32-bit sum. That
-- the fuel is enough is part of the theorems, since running out of it is `none`. The loop over a
-- capture runs on fuel one above the length of the file, of which each round takes 16 bytes or more.
-- `long` has 64 bits.
--
-- Not modelled: the calls that print and write files, the digits of a duration in src/cli.cpp, which
-- are those of a double and an argument here, the version text, which is an argument too, and the
-- message that an aborted NANO_ASSERT prints. `size_t` has 64 bits.
pub mod Prelude
pub mod Strings
pub mod Addresses
pub mod ByteView
pub mod Decode
pub mod Policy
pub mod RuleFile
pub mod Flow
pub mod TcpState
pub mod Nat
pub mod AppId
pub mod Engine
pub mod Pcap
pub mod CommandLine
pub mod Output
pub mod Report
pub mod Fuzz
pub mod Console
pub mod Program
pub mod Capture
