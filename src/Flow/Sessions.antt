-- ===== src/Flow/Sessions.antt =====
-- The conversation key, the session record and the idle timeouts of src/flow.h and src/flow.cpp.
use nano_ngfw.Prelude.{
  ℕ, ◌*◌, Bool, true, false, ◌&&◌, ◌||◌, ltb, leb, ◌==◌, if◌then◌else◌, Text, codes, ℤ,
}
use nano_ngfw.Policy.{Zone, Verdict}

pub record PacketMeta : Type 0 where
  pub src_ip : ℕ
  pub dst_ip : ℕ
  pub src_port : ℕ
  pub dst_port : ℕ
  pub proto : ℕ
  pub ts_us : ℕ
  pub bytes : ℕ

pub record FiveTuple : Type 0 where
  pub ip_a : ℕ
  pub ip_b : ℕ
  pub port_a : ℕ
  pub port_b : ℕ
  pub proto : ℕ

abbrev pub key_eq : FiveTuple → FiveTuple → Bool
key_eq a b =
    a.ip_a == b.ip_a
    && a.ip_b == b.ip_b
    && a.port_a == b.port_a
    && a.port_b == b.port_b
    && a.proto == b.proto

-- FiveTuple::make.
unfoldable pub make : ℕ → ℕ → ℕ → ℕ → ℕ → FiveTuple
make src_ip src_port dst_ip dst_port proto =
    if ltb src_ip dst_ip || src_ip == dst_ip && leb src_port dst_port
    then record {
      ip_a = src_ip;
      ip_b = dst_ip;
      port_a = src_port;
      port_b = dst_port;
      proto = proto;
    }
    else record {
      ip_a = dst_ip;
      ip_b = src_ip;
      port_a = dst_port;
      port_b = src_port;
      proto = proto;
    }

pub data SessionState : Type 0 where
  new syn_seen syn_ack_seen established fin_seen closing closed : SessionState

abbrev pub is_closed : SessionState → Bool
is_closed closed = true
is_closed _ = false

pub record Session : Type 0 where
  pub id : ℕ
  pub init_ip : ℕ
  pub resp_ip : ℕ
  pub init_port : ℕ
  pub resp_port : ℕ
  pub proto : ℕ
  pub state : SessionState
  pub fin_from_initiator : Bool
  pub first_seen_us : ℕ
  pub last_seen_us : ℕ
  pub from_zone : Zone
  pub to_zone : Zone
  pub matched_rule : ℤ
  pub verdict : Verdict
  pub app : Text
  pub app_latched : Bool
  pub l7_bytes_seen : ℕ
  pub sni : Text
  pub app_shifted : Bool
  pub nat_applied : Bool
  pub nat_ip : ℕ
  pub nat_port : ℕ
  pub pkts_c2s : ℕ
  pub pkts_s2c : ℕ
  pub bytes_c2s : ℕ
  pub bytes_s2c : ℕ

-- Session::app_display.
unfoldable pub app_display : Session → Text
app_display s = if s.app_latched then s.app else elim s.state [
  | new ↦ codes "incomplete"
  | syn_seen ↦ codes "incomplete"
  | syn_ack_seen ↦ codes "incomplete"
  | _ ↦ codes "insufficient-data"
]

pub record Timeouts : Type 0 where
  pub syn_us : ℕ
  pub established_tcp_us : ℕ
  pub established_udp_us : ℕ
  pub closing_us : ℕ

abbrev pub default_timeouts : Timeouts
default_timeouts = record {
  syn_us = 5 * 1000000;
  established_tcp_us = 3600 * 1000000;
  established_udp_us = 30 * 1000000;
  closing_us = 15 * 1000000;
}

unfoldable pub for_session : Timeouts → Session → ℕ
for_session t s = elim s.state [
  | new ↦ t.syn_us
  | syn_seen ↦ t.syn_us
  | syn_ack_seen ↦ t.syn_us
  | established ↦ if s.proto == 17 then t.established_udp_us else t.established_tcp_us
  | fin_seen ↦ t.closing_us
  | closing ↦ t.closing_us
  | closed ↦ 0
]
