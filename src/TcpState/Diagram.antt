-- ===== src/TcpState/Diagram.antt =====
-- tcp_advance of src/tcp_state.cpp, packet by packet: the transitions of docs/design.md, and the pickup
-- of a conversation in its midst.
use nano_ngfw.Prelude.{
  ◌∙◌, sym, ap, ◌≡◌, ◌⊎◌, ◌≢◌, if◌then◌else◌, inl, inr, ℕ, Bool, true, false, not, ◌&&◌, ◌||◌,
  arith, Bool-cases, refl,
}
use nano_ngfw.Flow.{
  Session, SessionState, new, syn_seen, syn_ack_seen, established, fin_seen, closing, closed,
}
use nano_ngfw.TcpState.{tcp_advance, is_fin, is_rst, is_syn, is_ack}

-- What the machine remembers: the state, and whether the first FIN came from the initiator.
abbrev pub Machine : Type 0
Machine = SessionState × Bool

abbrev pub machine : Session → Machine
machine s = (s.state, s.fin_from_initiator)

-- The transitions: which packet has to come, and from which end, for a state to be left for another. A reset
-- goes before all else. There is no edge that stays: a packet that meets no guard is none.
pub data Edge (flags : ℕ) (to_initiator : Bool) : Machine → Machine → Type 0 where
  reset :
      {s : SessionState} {b : Bool}
      → is_rst flags ≡ true
      → Edge flags to_initiator (s, b) (closed, b)
  open_syn :
      {b : Bool}
      → is_rst flags ≡ false
      → is_syn flags ≡ true
      → is_ack flags ≡ false
      → to_initiator ≡ false
      → Edge flags to_initiator (new, b) (syn_seen, b)
  pick_up :
      {b : Bool}
      → is_rst flags ≡ false
      → (is_syn flags ≡ false) ⊎ (is_ack flags ≡ true) ⊎ (to_initiator ≡ true)
      → Edge flags to_initiator (new, b) (established, b)
  answer :
      {b : Bool}
      → is_rst flags ≡ false
      → is_syn flags ≡ true
      → is_ack flags ≡ true
      → to_initiator ≡ true
      → Edge flags to_initiator (syn_seen, b) (syn_ack_seen, b)
  complete :
      {b : Bool}
      → is_rst flags ≡ false
      → is_ack flags ≡ true
      → is_syn flags ≡ false
      → to_initiator ≡ false
      → Edge flags to_initiator (syn_ack_seen, b) (established, b)
  finish :
      {b : Bool}
      → is_rst flags ≡ false
      → is_fin flags ≡ true
      → Edge flags to_initiator (established, b) (fin_seen, not to_initiator)
  finish_other :
      {b : Bool}
      → is_rst flags ≡ false
      → is_fin flags ≡ true
      → b ≢ not to_initiator
      → Edge flags to_initiator (fin_seen, b) (closing, b)
  last_ack :
      {b : Bool}
      → is_rst flags ≡ false
      → is_ack flags ≡ true
      → Edge flags to_initiator (closing, b) (closed, b)

ruleset edges = (reset, open_syn, pick_up, answer, complete, finish, finish_other, last_ack)

-- The guards of the edges that leave a state, as one test.
leaves : ℕ → Bool → Machine → Bool
leaves flags d (new, b) = true
leaves flags d (syn_seen, b) = is_rst flags || is_syn flags && is_ack flags && d
leaves flags d (syn_ack_seen, b) = is_rst flags || is_ack flags && not (is_syn flags) && not d
leaves flags d (established, b) = is_rst flags || is_fin flags
leaves flags d (fin_seen, b) = is_rst flags || is_fin flags && (if d then b else not b)
leaves flags d (closing, b) = is_rst flags || is_ack flags
leaves flags d (closed, b) = is_rst flags

reset_leaves : (flags : ℕ) (d : Bool) (x : Machine) → is_rst flags ≡ true → leaves flags d x ≡ true
unfolding leaves
reset_leaves flags d (new, b) r = refl
reset_leaves flags d (syn_seen, b) r = ground arith
reset_leaves flags d (syn_ack_seen, b) r = ground arith
reset_leaves flags d (established, b) r = ground arith
reset_leaves flags d (fin_seen, b) r = ground arith
reset_leaves flags d (closing, b) r = ground arith
reset_leaves flags d (closed, b) r = r

other_end : (d b : Bool) → b ≢ not d → (if d then b else not b) ≡ true
other_end true true n = refl
other_end true false n = absurd (n refl)
other_end false true n = absurd (n refl)
other_end false false n = refl

-- An edge is taken by a packet that passes the test.
Edge-leaves : {flags : ℕ} {d : Bool} {x y : Machine} → Edge flags d x y → leaves flags d x ≡ true
unfolding leaves
Edge-leaves {flags = flags} {d = d} (reset {s = s} {b = b} r) = reset_leaves flags d (s, b) r
Edge-leaves (open_syn r a b c) = refl
Edge-leaves (pick_up r a) = refl
Edge-leaves (answer r a b c) = ground arith
Edge-leaves (complete r a b c) = ground arith
Edge-leaves (finish r a) = ground arith
Edge-leaves {d = d} (finish_other {b = b} r a n) = let e = other_end d b n in ground arith
Edge-leaves (last_ack r a) = ground arith

-- The session with the machine moved on, and nothing else changed.
abbrev pub moved : Session → Machine → Session
moved s (state, b) = record s { state = state; fin_from_initiator = b }

-- The packet takes an edge of the diagram, or there is none to take and nothing changes.
abbrev pub Takes : ℕ → Bool → Session → Session → Type 0
Takes flags d s r =
    ((y : Machine) × Edge flags d (machine s) y × (r ≡ moved s y))
    ⊎ ((y : Machine) → ¬ Edge flags d (machine s) y) × (r ≡ s)

stays :
    (s : Session) (flags : ℕ) (d : Bool)
    → leaves flags d (machine s) ≡ false
    → tcp_advance s flags d ≡ s
unfolding tcp_advance leaves
stays s flags d h = ground arith

crosses :
    (s : Session) (flags : ℕ) (d : Bool)
    → leaves flags d (machine s) ≡ true
    → Edge flags d (machine s) (machine (tcp_advance s flags d))
unfolding tcp_advance leaves
crosses s flags d h = grind (arith, edges)

tcp_advance-moved :
    (s : Session) (flags : ℕ) (d : Bool)
    → tcp_advance s flags d ≡ moved s (machine (tcp_advance s flags d))
unfolding tcp_advance
tcp_advance-moved s flags d = ground arith

-- A packet takes a session along an edge of the diagram whose guard it meets, and changes nothing about it but
-- the state and who closed first; a packet that meets the guard of no edge changes nothing.
pub tcp_advance-Takes :
    (s : Session) (flags : ℕ) (to_initiator : Bool)
    → Takes flags to_initiator s (tcp_advance s flags to_initiator)
tcp_advance-Takes s flags to_initiator = elim (Bool-cases (leaves flags to_initiator (machine s))) [
  | inl out ↦ inl (
    machine (tcp_advance s flags to_initiator),
    crosses s flags to_initiator out,
    tcp_advance-moved s flags to_initiator,
  )
  | inr stuck ↦ inr ((λ y e. let p = Edge-leaves e in cc), stays s flags to_initiator stuck)
]

-- An edge leads where tcp_advance does, so that no two edges are open to one packet.
Edge-advance :
    {flags : ℕ} {d : Bool} {x y : Machine}
    → Edge flags d x y
    → (s : Session) → machine s ≡ x
    → machine (tcp_advance s flags d) ≡ y
unfolding tcp_advance
Edge-advance (reset r) s e = ground arith
Edge-advance (open_syn r a b c) s e = ground arith
Edge-advance (pick_up r a) s e = ground arith
Edge-advance (answer r a b c) s e = ground arith
Edge-advance (complete r a b c) s e = ground arith
Edge-advance (finish r a) s e = ground arith
Edge-advance (finish_other r a n) s e = ground arith
Edge-advance (last_ack r a) s e = ground arith

-- The diagram leaves one answer: `Takes` determines the session that a packet leaves.
pub Takes-unique :
    (flags : ℕ) (d : Bool) (s r q : Session) → Takes flags d s r → Takes flags d s q → r ≡ q
Takes-unique flags d s r q (inl (y, e, p)) (inl (z, f, p')) =
    p ∙ ap (moved s) (sym (Edge-advance e s refl) ∙ Edge-advance f s refl) ∙ sym p'
Takes-unique flags d s r q (inl (y, e, p)) (inr (n, p')) = absurd (n y e)
Takes-unique flags d s r q (inr (n, p)) (inl (z, f, p')) = absurd (n z f)
Takes-unique flags d s r q (inr (n, p)) (inr (m, p')) = p ∙ sym p'
