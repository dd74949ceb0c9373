-- ===== src/Flow/Answer.antt =====
-- FlowTable::lookup of src/flow.cpp on a sound table.
use nano_ngfw.Prelude.{
  Bool, Option-cases, arith, false, get_elem?, get_elem?-lt, inl, inr, length, none, some, ℕ, ◌&&◌,
  ◌<◌, ◌==◌, ◌≡◌, ◌⊎◌,
}
use nano_ngfw.Flow.Table.{IsTable, Indexed-find}
use nano_ngfw.Flow.{Session, no_session, PacketMeta, FlowTable, find, meta_key, lookup}

-- lookup does not fault on a sound table; it misses exactly the keys that are not in the index.
pub lookup_ok :
    (t : FlowTable) (m : PacketMeta)
    → IsTable t
    → length t.sessions < 0xffffffff
    → (lookup t m ≡ some (no_session, false)) × (find (meta_key m) t.by_key ≡ none)
      ⊎ ((id : ℕ) × (d : Bool) × (s : Session) × (lookup t m ≡ some (id, d))
          × (get_elem? t.sessions id ≡ some s)
          × (id < 0xffffffff))
unfolding lookup
lookup_ok t m v b = elim (Option-cases (find (meta_key m) t.by_key)) [
  | inl miss ↦ inl (rw (miss, lookup), miss)
  | inr (id, hit) ↦
      let (s, g, own) = Indexed-find t.sessions t.by_key (meta_key m) id v.indexed hit in
      inr (
        id,
        m.dst_ip == s.init_ip && m.dst_port == s.init_port,
        s,
        rw (hit, lookup) (rw g),
        g,
        omega (arith, get_elem?-lt t.sessions id g),
      )
]
