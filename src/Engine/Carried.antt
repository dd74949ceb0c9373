-- ===== src/Engine/Carried.antt =====
-- The parts of Engine::process of src/engine.cpp, and what a property of engines asks of each so that the
-- whole carries it on.
pub mod Tracked
use nano_ngfw.Prelude.{
  ℕ, ◌%◌, ◌^◌, ◌<◌, ◌≡◌, ◌+◌, ◌∙◌, inl, inr, refl, ap, Bool, false, [], ◌∷◌, ◌++◌, some, arith,
  get_elem?, length, Bool-cases, Ensures, get_elem?-append_end, ◌==◌,
}
use nano_ngfw.ByteView.{ByteView, empty_view}
use nano_ngfw.Decode.{DecodeStatus, ok, Ipv4Header, no_tcp, no_udp}
use nano_ngfw.Decode.L4.{decode_tcp-Outcome, decode_udp-Outcome}
use nano_ngfw.Flow.{PacketMeta, Session}
use nano_ngfw.Engine.{
  Engine, Counters, Segment, L4, failed, is_ok, inc, count_decode_failure, finish, read_l4,
  open_session, deliver,
}
use nano_ngfw.Engine.Opening.{Opened}
use nano_ngfw.Engine.Invariant.{IsEngine, SameSessions}

-- The frames that came to nothing, or belong to no session, under the reason.
abbrev pub set_aside : Counters → ℕ
set_aside c =
    c.short_headers + c.bad_versions + c.bad_ihls + c.bad_lengths + c.arp + c.ipv6 + c.vlan
    + c.other_l3 + c.fragments + c.other_l4 + c.out_of_state

-- Counters that differ in what says nothing of sessions, with n more frames set aside.
pub record Aside (n : ℕ) (c d : Counters) : Type 0 where
  pub sessions : SameSessions c d
  pub packets : d.packets ≡ c.packets
  pub aside : set_aside d % 2 ^ 64 ≡ (set_aside c + n) % 2 ^ 64

-- The engine with the frame counted, which is what the sweep and the decoders are given.
abbrev pub counted : Engine → Engine
counted e = record e { counters = record (e.counters) { packets = inc e.counters.packets } }

-- What a property of engines asks of the parts of process: `Before` holds while the frame is on its
-- way, `After` once it is set aside or delivered.
pub record Carries (Before After : Engine → Type 0) : Type 0 where
  pub notes :
      (e : Engine) (d : Counters)
      → Aside 0 e.counters d
      → Before e
      → Before (record e { counters = d })
  pub sets_aside :
      (e : Engine) (d : Counters)
      → Aside 1 e.counters d
      → Before e
      → After (record e { counters = d })
  pub sweeps : (e e' : Engine) (ts : ℕ) → IsEngine e → finish e ts ≡ some e' → Before e → Before e'
  pub opens :
      (e : Engine) (m : PacketMeta) (r : ℕ × Engine)
      → IsEngine e
      → length e.flows.sessions < 0xffffffff
      → open_session e m ≡ some r
      → Opened e m r
      → Before e
      → Before r.1
  pub delivers :
      (e e' : Engine) (g : Segment) (id : ℕ) (d : Bool) (s : Session)
      → get_elem? e.flows.sessions id ≡ some s
      → deliver e g id d ≡ some e'
      → Before e
      → After e'

pub Opened-get :
    (e : Engine) (m : PacketMeta) (r : ℕ × Engine) (o : Opened e m r)
    → get_elem? r.1.flows.sessions r.0 ≡ some o.newcomer
Opened-get e m r o = rw (o.appended) (
    ap (get_elem? (e.flows.sessions ++ o.newcomer ∷ [])) o.id
    ∙ get_elem?-append_end e.flows.sessions o.newcomer)

abbrev pub NotOk : L4 → Type 0
NotOk (failed st) = is_ok st ≡ false
NotOk _ = Unit {0}

-- The decoders of the transport layer read inside the payload they are given, and fail only where they
-- say so.
pub read_l4_ok : (ip : Ipv4Header) (l4 : ByteView) (ts n : ℕ) → Ensures NotOk (read_l4 ip l4 ts n)
unfolding read_l4
read_l4_ok ip l4 ts n = elim (Bool-cases (ip.protocol == 6)) [
  | inl tcp ↦
      let (d, e, _) = decode_tcp-Outcome l4 no_tcp empty_view in
      rw (tcp, e)
        (elim (Bool-cases (is_ok d.status)) [
          | inl fine ↦ rw fine (_, refl, tt)
          | inr bad ↦ rw bad (_, refl, bad)
        ])
  | inr other ↦ rw other (elim (Bool-cases (ip.protocol == 17)) [
    | inl udp ↦
        let (d, e, _) = decode_udp-Outcome l4 no_udp empty_view in
        rw (udp, e)
          (elim (Bool-cases (is_ok d.status)) [
            | inl fine ↦ rw fine (_, refl, tt)
            | inr bad ↦ rw bad (_, refl, bad)
          ])
    | inr neither ↦ rw neither (_, refl, tt)
  ])
]

pub failure-Aside :
    (c : Counters) (st : DecodeStatus) → is_ok st ≡ false → Aside 1 c (count_decode_failure c st)
unfolding count_decode_failure
failure-Aside c ok h = cc
failure-Aside c st h = ground arith
