-- ===== src/Output.antt =====
-- What the text output (src/cli.cpp) and the HTML report (src/report.cpp) share: names and end points of
-- sessions, and the rule of a session.
use nano_ngfw.Prelude.{
  ℕ, List, [], ◌∷◌, ◌++◌, Option, none, get_elem?, ◌==◌, if◌then◌else◌, is_empty, Text, codes, ℤ,
  pos, negsuc,
}
use nano_ngfw.Strings.{to_string}
use nano_ngfw.Addresses.{ipv4_to_string}
use nano_ngfw.Policy.{Rule, Policy}
use nano_ngfw.Decode.{
  DecodeStatus, ok, short_header, bad_version, bad_ihl, bad_length, bit_set, syn_bit, ack_bit,
  fin_bit, rst_bit,
}
use nano_ngfw.Flow.{
  SessionState, new, syn_seen, syn_ack_seen, established, fin_seen, closing, closed,
}

-- Texts that are written one after the other, `out << a << b`.
abbrev pub stream : List Text → Text
stream [] = []
stream (w ∷ ws) = w ++ stream ws

abbrev pub endpoint : ℕ → ℕ → Text
endpoint ip port = ipv4_to_string ip ++ b':' ∷ to_string port

abbrev pub proto_name : ℕ → Text
proto_name proto =
    if proto == 6
    then codes "tcp"
    else if proto == 17
    then codes "udp"
    else if proto == 1
    then codes "icmp"
    else codes "ip"

-- to_string(SessionState) of src/flow.cpp.
abbrev pub state_to_string : SessionState → Text
state_to_string new = codes "NEW"
state_to_string syn_seen = codes "SYN-SEEN"
state_to_string syn_ack_seen = codes "SYNACK-SEEN"
state_to_string established = codes "ESTABLISHED"
state_to_string fin_seen = codes "FIN-SEEN"
state_to_string closing = codes "CLOSING"
state_to_string closed = codes "CLOSED"

-- Policy::rule_at of src/policy.cpp: none is the null pointer.
abbrev pub rule_at : Policy → ℤ → Option Rule
rule_at p (pos n) = get_elem? p.rules n
rule_at p (negsuc n) = none

-- to_string(DecodeStatus) of src/decode.cpp.
abbrev pub status_to_string : DecodeStatus → Text
status_to_string ok = codes "ok"
status_to_string short_header = codes "short-header"
status_to_string bad_version = codes "bad-version"
status_to_string bad_ihl = codes "bad-ihl"
status_to_string bad_length = codes "bad-length"

abbrev pub flag_names : List (ℕ × Text)
flag_names =
    (syn_bit, codes "SYN")
    ∷ (ack_bit, codes "ACK")
    ∷ (fin_bit, codes "FIN")
    ∷ (rst_bit, codes "RST")
    ∷ (0x08, codes "PSH")
    ∷ (0x20, codes "URG")
    ∷ []

-- The loop of tcp_flags_to_string of src/decode.cpp, with `out` as it is.
unfoldable pub add_flags : ℕ → List (ℕ × Text) → Text → Text
add_flags flags [] out = out
add_flags flags ((bit, name) ∷ names) out =
    let comma = if is_empty out then [] else b',' ∷ [] in
    add_flags flags names (if bit_set flags bit then out ++ (comma ++ name) else out)

unfoldable pub tcp_flags_to_string : ℕ → Text
tcp_flags_to_string flags =
    let out = add_flags flags flag_names [] in if is_empty out then codes "-" else out
