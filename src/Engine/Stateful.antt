-- ===== src/Engine/Stateful.antt =====
-- The stateful-inspection rule of handle_l4 in src/engine.cpp.
use nano_ngfw.Prelude.{
  ℕ, ◌<◌, ◌≡◌, ◌∙◌, inl, inr, refl, ap, true, false, arith, length, length-set, Ensures, ◌==◌,
}
use nano_ngfw.Decode.{pure_syn}
use nano_ngfw.Flow.{FlowTable, put}
use nano_ngfw.Flow.Table.{IsTable}
use nano_ngfw.Engine.{Engine, Segment, track}
use nano_ngfw.Engine.Delivery.{Delivered, deliver-Delivered}
use nano_ngfw.Flow.Answer.{lookup_ok}

-- What a refused or delivered packet leaves alone: the number of sessions, the index, the NAT pool.
abbrev pub NothingOpened : Engine → Engine → Type 0
NothingOpened e e' =
    (length e'.flows.sessions ≡ length e.flows.sessions)
    × (e'.flows.by_key ≡ e.flows.by_key)
    × (e'.nat ≡ e.nat)

Delivered-NothingOpened :
    (e : Engine) (id : ℕ) (s : _) (e' : Engine) → Delivered e id s e' → NothingOpened e e'
unfolding put
Delivered-NothingOpened e id s e' (r, q, _, n, _, _) = (
  ap (λ (f : FlowTable). length f.sessions) q ∙ length-set e.flows.sessions id r,
  ap (λ (f : FlowTable). f.by_key) q,
  n,
)

-- On a sound table of fewer than 2^32 - 1 sessions, in strict mode, a TCP segment that is not a pure SYN opens no session, whether it belongs to one or
-- not: it is delivered or refused without a fault, and takes no entry of the index and no NAT port.
pub strict-NothingOpened :
    (e : Engine) (g : Segment)
    → IsTable e.flows
    → length e.flows.sessions < 0xffffffff
    → e.midstream ≡ false
    → g.is_tcp ≡ true
    → pure_syn g.tcp ≡ false
    → Ensures (NothingOpened e) (track e g)
unfolding track
strict-NothingOpened e g v b strict tcp plain = elim (lookup_ok e.flows g.meta v b) [
  | inl (miss, _) ↦ rw (miss, tcp, plain, strict) (_, refl, (refl, refl, refl))
  | inr (id, d, s, hit, h, l) ↦
      let known : (id == 0xffffffff) ≡ false = ground arith in
      let (e', q, x) = deliver-Delivered e g id d s h in
      rw (hit, known) (e', q, Delivered-NothingOpened e id s e' x)
]
