-- ===== src/Engine/Opening.antt =====
-- The birth of a session in handle_l4 of src/engine.cpp.
use nano_ngfw.Prelude.{
  ℕ, ◌+◌, ◌%◌, ◌^◌, ◌<◌, ◌≡◌, ◌∙◌, refl, sym, ap, subst, List, [], ◌∷◌, ◌++◌, none, some, arith,
  get_elem?, set, length, Ensures, get_elem?-append_end, Bool-cases, Option-cases, inl, inr, ◌⊎◌,
  ◌&&◌, true, false,
}
use nano_ngfw.Policy.{Policy, Traffic, Zone, allow, verdict_eq, zone_eq, zone_for, evaluate}
use nano_ngfw.Flow.{
  PacketMeta, Session, FlowTable, find, meta_key, session_key, fresh, create, put, active,
}
use nano_ngfw.Flow.Index.{length-assign, find-assign_self}
use nano_ngfw.Flow.View.{view, update, update-update, view-create, view-put}
use nano_ngfw.Flow.Table.{IsTable, Updates, create-IsTable, put-IsTable}
use nano_ngfw.Nat.{NatPool, enabled, allocate}
use nano_ngfw.Nat.Ports.{IsPool, allocate-Allocates, allocate-refused}
use nano_ngfw.Engine.{Engine, Counters, judged, translated, open_session, count_verdict, inc}
use nano_ngfw.Engine.Counting.{Counted, count-Counted, count-SameTotals}

set-append_end {ℓ} :
    {A : Type ℓ} (xs : List A) (a b : A) → set (xs ++ a ∷ []) (length xs) b ≡ xs ++ b ∷ []
set-append_end [] a b = refl
set-append_end (x ∷ xs) a b = ap (λ t. x ∷ t) (set-append_end xs a b)

judged-Updates : (p : Policy) (m : PacketMeta) (s : Session) → Updates s (judged p m s)
unfolding judged
judged-Updates p m s = ground arith

judged-nat :
    (p : Policy) (m : PacketMeta) (s : Session) → (judged p m s).nat_applied ≡ s.nat_applied
unfolding judged
judged-nat p m s = refl

translated-Updates :
    (nat : NatPool) (s : Session)
    → Updates s (translated nat s).1 × ((translated nat s).1.verdict ≡ s.verdict)
unfolding translated
translated-Updates nat s = ground arith

translated-IsPool : (nat : NatPool) (s : Session) → IsPool nat → IsPool (translated nat s).0
unfolding translated
translated-IsPool nat s v = ground (arith, allocate-Allocates nat v)

-- What the policy is asked about on the first packet, before App-ID has seen any payload.
abbrev pub first_traffic : Policy → PacketMeta → Traffic
first_traffic p m = record {
  source = zone_for p m.src_ip;
  target = zone_for p m.dst_ip;
  proto = m.proto;
  dst_port = m.dst_port;
  app = [];
}

-- A session with the packet's source as its initiator, with the zones of the two addresses, and with the
-- rule and the verdict of that traffic.
abbrev pub Ruled : Policy → PacketMeta → Session → Type 0
Ruled p m s =
    ((s.init_ip ≡ m.src_ip) × (s.init_port ≡ m.src_port))
    × ((s.resp_ip ≡ m.dst_ip) × (s.resp_port ≡ m.dst_port) × (s.proto ≡ m.proto))
    × ((s.from_zone ≡ zone_for p m.src_ip) × (s.to_zone ≡ zone_for p m.dst_ip))
    × ((s.matched_rule ≡ (evaluate p (first_traffic p m)).0)
        × (s.verdict ≡ (evaluate p (first_traffic p m)).1))

translated-Ruled :
    (p : Policy) (m : PacketMeta) (nat : NatPool) (s : Session)
    → Ruled p m s
    → Ruled p m (translated nat s).1
unfolding translated
translated-Ruled p m nat s v = ground (arith, v)

born-Ruled :
    (p : Policy) (m : PacketMeta) (id : ℕ) (nat : NatPool)
    → Ruled p m (translated nat (judged p m (fresh m id))).1
unfolding judged
born-Ruled p m id nat =
    translated-Ruled p m nat (judged p m (fresh m id))
      ((refl, refl), (refl, refl, refl), (refl, refl), (refl, refl))

-- What becomes of a session and of the pool: neither is touched, or the session gets the pool's address
-- and the port that the pool hands out.
abbrev pub Ported : NatPool → Session → NatPool → Type 0
Ported p s q =
    (s.nat_applied ≡ false) × (q ≡ p)
    ⊎ (s.nat_applied ≡ true)
      × (s.nat_ip ≡ p.public_ip)
      × ((allocate p).0 ≡ some s.nat_port)
      × (q ≡ (allocate p).1)

translated-Ported :
    (nat : NatPool) (s : Session)
    → s.nat_applied ≡ false
    → Ported nat (translated nat s).1 (translated nat s).0
unfolding translated
translated-Ported nat s h =
    elim (Bool-cases (
      verdict_eq s.verdict allow
      && enabled nat
      && zone_eq s.from_zone Zone.trust
      && zone_eq s.to_zone Zone.untrust)) [
        | inr refused ↦ rw refused (inl (h, refl))
        | inl allowed ↦ rw allowed (elim (Option-cases (allocate nat).0) [
          | inl full ↦ rw full (inl (h, allocate-refused nat full))
          | inr (port, e) ↦ rw e (inr (refl, refl, refl, refl))
        ])
      ]

-- What open_session leaves: the new session at the end of the vector, named by its position, counted
-- under its verdict and as created. The packet's key, and no other, leads to it, and it is translated to
-- the port that the pool hands out, if it is.
pub record Opened (e : Engine) (m : PacketMeta) (r : ℕ × Engine) : Type 0 where
  pub newcomer : Session
  pub id : r.0 ≡ length e.flows.sessions
  pub appended : r.1.flows.sessions ≡ e.flows.sessions ++ newcomer ∷ []
  pub table : IsTable r.1.flows
  pub own : session_key newcomer ≡ meta_key m
  pub ruled : Ruled e.policy m newcomer
  pub found : find (meta_key m) r.1.flows.by_key ≡ some r.0
  pub seen : view r.1.flows ≡ update (meta_key m) newcomer (view e.flows)
  pub more_active : active r.1.flows ≡ active e.flows + 1
  pub nat : IsPool r.1.nat
  pub ported : Ported e.nat newcomer r.1.nat
  pub counted : Counted r.1.counters r.1.flows.sessions
  pub created : r.1.counters.sessions_created ≡ inc e.counters.sessions_created
  pub retired : r.1.counters.sessions_retired ≡ e.counters.sessions_retired

module _ (t : FlowTable) (m : PacketMeta) (b : length t.sessions < 0xffffffff) where
  created_id : (create t m).0 ≡ length t.sessions
  unfolding create
  created_id = omega arith

  created_sessions : (create t m).1.sessions ≡ t.sessions ++ fresh m (create t m).0 ∷ []
  unfolding create
  created_sessions = refl

  created_get : get_elem? (create t m).1.sessions (create t m).0 ≡ some (fresh m (create t m).0)
  created_get = rw created_sessions (
      ap (get_elem? (t.sessions ++ fresh m (create t m).0 ∷ [])) created_id
      ∙ get_elem?-append_end t.sessions (fresh m (create t m).0))

  created_put :
      (r : Session) → (put (create t m).1 (create t m).0 r).sessions ≡ t.sessions ++ r ∷ []
  unfolding put
  created_put r = rw created_sessions (
      ap (λ i. set (t.sessions ++ fresh m (create t m).0 ∷ []) i r) created_id
      ∙ set-append_end t.sessions (fresh m (create t m).0) r)

  created_active :
      find (meta_key m) t.by_key ≡ none
      → (r : Session) → active (put (create t m).1 (create t m).0 r) ≡ active t + 1
  unfolding put create
  created_active f r =
      omega (arith, length-assign (meta_key m) (length t.sessions % 2 ^ 32) t.by_key f)

  created_found :
      (r : Session)
      → find (meta_key m) (put (create t m).1 (create t m).0 r).by_key ≡ some (create t m).0
  unfolding put create
  created_found r = find-assign_self (meta_key m) (length t.sessions % 2 ^ 32) t.by_key

  created_found_raw : find (meta_key m) (create t m).1.by_key ≡ some (create t m).0
  unfolding create
  created_found_raw = find-assign_self (meta_key m) (length t.sessions % 2 ^ 32) t.by_key

  created_view :
      IsTable t
      → find (meta_key m) t.by_key ≡ none
      → (r : Session) → Updates (fresh m (create t m).0) r
      → view (put (create t m).1 (create t m).0 r) ≡ update (meta_key m) r (view t)
  created_view v f r u =
      view-put (create t m).1 (create t m).0 (fresh m (create t m).0) r (create-IsTable t m v f b)
        (created_found_raw) created_get
      ∙ ap (update (meta_key m) r) (view-create t m v b)
      ∙ update-update (meta_key m) (fresh m (length t.sessions)) r (view t)

Updates-trans : (s r q : Session) → Updates s r → Updates r q → Updates s q
Updates-trans s r q a b = ground arith

-- On a sound table with fewer than 2^32 - 1 sessions, a sound pool and agreeing verdict counters, a
-- packet whose key is not indexed gets a session without a fault: it stands at the end of the vector
-- under its index, in a sound table, and is counted as created and under its verdict. Its initiator is
-- the packet's source and its responder the destination, its zones are those of the two addresses, and its
-- rule and verdict are what evaluate says of that traffic while the application is unknown. The packet's key
-- leads to it, and every other key to what it led to before. If it is translated, then to the pool's address and to
-- the port that the pool hands out; else the pool is left alone.
pub open_session-Opened :
    (e : Engine) (m : PacketMeta)
    → IsTable e.flows
    → IsPool e.nat
    → Counted e.counters e.flows.sessions
    → length e.flows.sessions < 0xffffffff
    → find (meta_key m) e.flows.by_key ≡ none
    → Ensures (Opened e m) (open_session e m)
unfolding open_session
open_session-Opened e m v p k b f = rw (created_get e.flows m b) (
  _,
  refl,
  record {
    newcomer = s'';
    id = created_id e.flows m b;
    appended = created_put e.flows m b s'';
    table =
        put-IsTable (create e.flows m).1 (create e.flows m).0 s s'' (create-IsTable e.flows m v f b)
          (created_get e.flows m b) whole;
    own = same_key;
    ruled = kept;
    found = created_found e.flows m b s'';
    seen = created_view e.flows m b v f s'' whole;
    more_active = created_active e.flows m b f s'';
    nat = translated-IsPool e.nat s' p;
    ported = translated-Ported e.nat s' untouched;
    counted = subst (Counted (count_verdict c' s'.verdict)) (sym (created_put e.flows m b s'')) (
        subst (λ y. Counted (count_verdict c' y) (e.flows.sessions ++ s'' ∷ []))
          (translated-Updates e.nat s').1
          (count-Counted c' e.flows.sessions s''
            (record { allows = k.allows; denies = k.denies; drops = k.drops })));
    created = (count-SameTotals c' s'.verdict).0;
    retired = (count-SameTotals c' s'.verdict).1;
  },
)
  where
    s : Session
    s = fresh m (create e.flows m).0

    s' : Session
    s' = judged e.policy m s

    s'' : Session
    s'' = (translated e.nat s').1

    untouched : s'.nat_applied ≡ false
    untouched = judged-nat e.policy m s

    kept : Ruled e.policy m s''
    kept = born-Ruled e.policy m (create e.flows m).0 e.nat

    whole : Updates s s''
    whole = Updates-trans s s' s'' (judged-Updates e.policy m s) (translated-Updates e.nat s').0

    same_key : session_key s'' ≡ meta_key m
    same_key = whole.same_key

    c' : Counters
    c' = record (e.counters) { sessions_created = inc e.counters.sessions_created }
