-- ===== src/TcpState/Trace.antt =====
-- The machine of src/tcp_state.cpp over whole conversations.
use nano_ngfw.Prelude.{
  ◌≡◌, ◌≢◌, ◌∙◌, ◌⊎◌, inl, inr, refl, Bool, true, false, not, List, [], ◌∷◌, arith,
}
use nano_ngfw.Flow.{
  Session, SessionState, new, syn_seen, syn_ack_seen, established, fin_seen, closing, closed,
}
use nano_ngfw.TcpState.{tcp_advance, is_fin, is_rst, is_syn, is_ack, advance_all, Event}

abbrev pub Contains : (Event → Type 0) → List Event → Type 0
Contains P [] = ⊥
Contains P (e ∷ es) = P e ⊎ Contains P es

-- An event of the first kind, and after it one of the second.
abbrev pub Followed : (Event → Type 0) → (Event → Type 0) → List Event → Type 0
Followed P Q [] = ⊥
Followed P Q (e ∷ es) = P e × Contains Q es ⊎ Followed P Q es

abbrev pub IsSynAck : Event → Type 0
IsSynAck e = (is_syn e.0 ≡ true) × (is_ack e.0 ≡ true) × (e.1 ≡ true)

abbrev pub IsThirdLeg : Event → Type 0
IsThirdLeg e = (is_ack e.0 ≡ true) × (is_syn e.0 ≡ false) × (e.1 ≡ false)

-- A FIN that flows to the initiator, or away from it.
abbrev pub IsFin : Bool → Event → Type 0
IsFin to_initiator e = (is_fin e.0 ≡ true) × (e.1 ≡ to_initiator)

abbrev pub NoReset : List Event → Type 0
NoReset [] = Unit {0}
NoReset (e ∷ es) = (is_rst e.0 ≡ false) × NoReset es

abbrev pub IsOpen : SessionState → Type 0
IsOpen st = (st ≡ established) ⊎ (st ≡ fin_seen) ⊎ (st ≡ closing)

abbrev pub IsEnded : SessionState → Type 0
IsEnded st = (st ≡ closing) ⊎ (st ≡ closed)

closed_stays :
    (s : Session) (es : List Event) → s.state ≡ closed → (advance_all s es).state ≡ closed
unfolding advance_all tcp_advance
closed_stays s [] h = h
closed_stays s (e ∷ es) h = closed_stays (tcp_advance s e.0 e.1) es (ground arith)

step_syn_ack_seen :
    (s : Session) (e : Event)
    → s.state ≡ syn_ack_seen
    → ((tcp_advance s e.0 e.1).state ≡ syn_ack_seen)
      ⊎ ((tcp_advance s e.0 e.1).state ≡ closed)
      ⊎ IsThirdLeg e
unfolding tcp_advance
step_syn_ack_seen s e h = ground arith

step_syn_seen :
    (s : Session) (e : Event)
    → s.state ≡ syn_seen
    → ((tcp_advance s e.0 e.1).state ≡ syn_seen)
      ⊎ ((tcp_advance s e.0 e.1).state ≡ closed)
      ⊎ ((tcp_advance s e.0 e.1).state ≡ syn_ack_seen) × IsSynAck e
unfolding tcp_advance
step_syn_seen s e h = ground arith

not_open : (st : SessionState) → IsOpen st → st ≢ closed
not_open st o e = ground arith

from_syn_ack_seen :
    (s : Session) (es : List Event)
    → s.state ≡ syn_ack_seen
    → IsOpen (advance_all s es).state
    → Contains IsThirdLeg es
unfolding advance_all
from_syn_ack_seen s [] h o = ground arith
from_syn_ack_seen s (e ∷ es) h o = elim (step_syn_ack_seen s e h) [
  | inl same ↦ inr (from_syn_ack_seen (tcp_advance s e.0 e.1) es same o)
  | inr (inl shut) ↦ absurd (not_open _ o (closed_stays (tcp_advance s e.0 e.1) es shut))
  | inr (inr leg) ↦ inl leg
]

-- A conversation that began with a SYN is open, or on its way to close, only after the responder's
-- SYN+ACK and, behind it, the initiator's ACK.
pub open_needs_handshake :
    (s : Session) (es : List Event)
    → s.state ≡ syn_seen
    → IsOpen (advance_all s es).state
    → Followed IsSynAck IsThirdLeg es
unfolding advance_all
open_needs_handshake s [] h o = ground arith
open_needs_handshake s (e ∷ es) h o = elim (step_syn_seen s e h) [
  | inl same ↦ inr (open_needs_handshake (tcp_advance s e.0 e.1) es same o)
  | inr (inl shut) ↦ absurd (not_open _ o (closed_stays (tcp_advance s e.0 e.1) es shut))
  | inr (inr (answered, answer)) ↦
      inl (answer, from_syn_ack_seen (tcp_advance s e.0 e.1) es answered o)
]

-- Does the machine stand before the first FIN?
abbrev IsEarly : SessionState → Type 0
IsEarly st = (st ≡ new) ⊎ (st ≡ syn_seen) ⊎ (st ≡ syn_ack_seen) ⊎ (st ≡ established)

step-IsEarly :
    (s : Session) (e : Event)
    → IsEarly s.state
    → is_rst e.0 ≡ false
    → IsEarly (tcp_advance s e.0 e.1).state
      ⊎ ((tcp_advance s e.0 e.1).state ≡ fin_seen)
        × ((tcp_advance s e.0 e.1).fin_from_initiator ≡ not e.1)
        × (is_fin e.0 ≡ true)
unfolding tcp_advance
step-IsEarly s e h r = ground arith

step_fin_seen :
    (s : Session) (e : Event)
    → s.state ≡ fin_seen
    → is_rst e.0 ≡ false
    → ((tcp_advance s e.0 e.1).state ≡ fin_seen)
        × ((tcp_advance s e.0 e.1).fin_from_initiator ≡ s.fin_from_initiator)
      ⊎ IsFin s.fin_from_initiator e
unfolding tcp_advance
step_fin_seen s e h r = ground arith

-- The end that has not closed yet sends to the initiator if the initiator closed first.
from_fin_seen :
    (s : Session) (es : List Event) (side : Bool)
    → s.state ≡ fin_seen
    → s.fin_from_initiator ≡ side
    → NoReset es
    → IsEnded (advance_all s es).state
    → Contains (IsFin side) es
unfolding advance_all
from_fin_seen s [] side h f r o = ground arith
from_fin_seen s (e ∷ es) side h f (r, rs) o = elim (step_fin_seen s e h r) [
  | inl (same, side') ↦ inr (from_fin_seen (tcp_advance s e.0 e.1) es side same (side' ∙ f) rs o)
  | inr fin ↦ inl (ground arith)
]

-- Without a reset, a conversation reaches closing, or closed, only after a FIN from each end.
pub end_needs_both_fins :
    (s : Session) (es : List Event)
    → (s.state ≡ new) ⊎ (s.state ≡ syn_seen) ⊎ (s.state ≡ syn_ack_seen) ⊎ (s.state ≡ established)
    → NoReset es
    → IsEnded (advance_all s es).state
    → Contains (IsFin true) es × Contains (IsFin false) es
unfolding advance_all
end_needs_both_fins s [] h r o = ground arith
end_needs_both_fins s (e ∷ es) h (r, rs) o = elim (step-IsEarly s e h r) [
  | inl early ↦
      let (a, b) = end_needs_both_fins (tcp_advance s e.0 e.1) es early rs o in (inr a, inr b)
  | inr (seen, side, fin) ↦
      both e es fin (from_fin_seen (tcp_advance s e.0 e.1) es (not e.1) seen side rs o)
]
  where
    both :
        (e : Event) (es : List Event)
        → is_fin e.0 ≡ true
        → Contains (IsFin (not e.1)) es
        → Contains (IsFin true) (e ∷ es) × Contains (IsFin false) (e ∷ es)
    both (flags, true) es fin c = (inl (fin, refl), inr c)
    both (flags, false) es fin c = (inr c, inl (fin, refl))
