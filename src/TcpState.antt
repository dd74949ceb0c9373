-- ===== src/TcpState.antt =====
-- src/tcp_state.h and src/tcp_state.cpp: the observed-session state machine.
pub mod Diagram
pub mod Trace
pub mod Tests
use nano_ngfw.Prelude.{ℕ, Bool, true, false, not, ◌&&◌, List, [], ◌∷◌, if◌then◌else◌}
use nano_ngfw.Decode.{bit_set, fin_bit, syn_bit, rst_bit, ack_bit}
use nano_ngfw.Flow.{
  Session, SessionState, new, syn_seen, syn_ack_seen, established, fin_seen, closing, closed,
}

abbrev pub is_syn : ℕ → Bool
is_syn flags = bit_set flags syn_bit

abbrev pub is_ack : ℕ → Bool
is_ack flags = bit_set flags ack_bit

abbrev pub is_fin : ℕ → Bool
is_fin flags = bit_set flags fin_bit

abbrev pub is_rst : ℕ → Bool
is_rst flags = bit_set flags rst_bit

abbrev differs : Bool → Bool → Bool
differs true b = not b
differs false b = b

-- The switch of tcp_advance on the session's state, behind the test for RST. The last flag is
-- `to_initiator`.
advance : SessionState → Session → ℕ → Bool → Session
advance new s flags to_initiator =
    if is_syn flags && not (is_ack flags) && not to_initiator
    then record s { state = syn_seen }
    else record s { state = established }
advance syn_seen s flags to_initiator =
    if is_syn flags && is_ack flags && to_initiator then record s { state = syn_ack_seen } else s
advance syn_ack_seen s flags to_initiator =
    if is_ack flags && not (is_syn flags) && not to_initiator
    then record s { state = established }
    else s
advance established s flags to_initiator =
    if is_fin flags then record s { state = fin_seen; fin_from_initiator = not to_initiator } else s
advance fin_seen s flags to_initiator =
    if is_fin flags && differs (not to_initiator) s.fin_from_initiator
    then record s { state = closing }
    else s
advance closing s flags to_initiator = if is_ack flags then record s { state = closed } else s
advance closed s flags to_initiator = s

unfoldable pub tcp_advance : Session → ℕ → Bool → Session
unfolding advance
tcp_advance s flags to_initiator =
    if is_rst flags then record s { state = closed } else advance s.state s flags to_initiator

unfoldable pub udp_advance : Session → Session
udp_advance s = elim s.state [ new ↦ record s { state = established } | _ ↦ s ]

-- A packet as the machine sees it: its flags, and whether it flows to the initiator.
abbrev pub Event : Type 0
Event = ℕ × Bool

-- The packets of a conversation, one after the other.
unfoldable pub advance_all : Session → List Event → Session
advance_all s [] = s
advance_all s ((flags, to_initiator) ∷ rest) = advance_all (tcp_advance s flags to_initiator) rest
