-- ===== src/TcpState/Tests.antt =====
-- Concrete conversations for src/tcp_state.cpp.
use nano_ngfw.Prelude.{◌≡◌, inl, inr, refl, true, false, List, [], ◌∷◌}
use nano_ngfw.Flow.{Session, syn_seen, established, closing, fresh, PacketMeta}
use nano_ngfw.TcpState.{Event, tcp_advance, advance_all}
use nano_ngfw.TcpState.Diagram.{Takes, tcp_advance-Takes}
use nano_ngfw.TcpState.Trace.{
  Contains, Followed, IsSynAck, IsThirdLeg, IsFin, open_needs_handshake, end_needs_both_fins,
}

abbrev web : PacketMeta
web = record {
  src_ip = 1;
  dst_ip = 2;
  src_port = 1234;
  dst_port = 80;
  proto = 6;
  ts_us = 0;
  bytes = 60;
}

abbrev asked : Session
asked = record (fresh web 0) { state = syn_seen }

-- SYN+ACK, then the initiator's ACK.
abbrev answers : List Event
answers = (0x12, true) ∷ (0x10, false) ∷ []

-- A FIN from each end.
abbrev goodbyes : List Event
goodbyes = (0x11, false) ∷ (0x11, true) ∷ []

handshake_done : (advance_all asked answers).state ≡ established
unfolding advance_all tcp_advance
handshake_done = refl

ended : (advance_all (record asked { state = established }) goodbyes).state ≡ closing
unfolding advance_all tcp_advance
ended = refl

tcp_advance-Takes_example : Takes 0x12 true asked (tcp_advance asked 0x12 true)
tcp_advance-Takes_example = tcp_advance-Takes asked 0x12 true

open_needs_handshake_example : Followed IsSynAck IsThirdLeg answers
open_needs_handshake_example = open_needs_handshake asked answers refl (inl handshake_done)

end_needs_both_fins_example : Contains (IsFin true) goodbyes × Contains (IsFin false) goodbyes
end_needs_both_fins_example =
    end_needs_both_fins (record asked { state = established }) goodbyes (inr (inr (inr refl)))
      (refl, (refl, tt)) (inl ended)
