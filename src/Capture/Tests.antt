-- ===== src/Capture/Tests.antt =====
-- A short capture file for src/main.cpp.
use nano_ngfw.Prelude.{
  ℕ, zero, suc, ◌+◌, ◌<◌, ◌^◌, ◌≡◌, ◌≢◌, refl, true, false, List, [], ◌∷◌, ◌++◌, some, none, arith,
  length, get_elem?, Ensures,
}
use nano_ngfw.ByteView.{ByteView, empty_view, has}
use nano_ngfw.Decode.{decode_eth}
use nano_ngfw.Policy.Tests.{sample_policy}
use nano_ngfw.Nat.{pool}
use nano_ngfw.Nat.Ports.{pool-IsPool}
use nano_ngfw.Flow.{
  find, assign, make, create, meta_key, is_closed, default_timeouts, expired, for_session,
}
use nano_ngfw.Flow.Tests.{asking, one_session}
use nano_ngfw.Engine.{Engine, process}
use nano_ngfw.Engine.Rules.Kept.{RulesOf, process-RulesOf}
use nano_ngfw.Engine.Accounting.{Accounted}
use nano_ngfw.Engine.Accounting.Frames.{process-Accounted}
use nano_ngfw.Engine.Translation.{Translated}
use nano_ngfw.Engine.Translation.Ports.{process-Translated}
use nano_ngfw.Engine.Isolation.Frames.{frame_key}
use nano_ngfw.Engine.Tests.{engine, first, engine-IsEngine, get_first}
use nano_ngfw.Capture.{start}
use nano_ngfw.Capture.Whole.{Orderly, start-Orderly}
use nano_ngfw.Capture.Idle.{Quiet, feed, feed-idle}
use nano_ngfw.Decode.Tests.{ipv4_bytes, syn_bytes, syn_frame}
use nano_ngfw.Pcap.Format.{PcapRecord}
use nano_ngfw.Pcap.RoundTrip.{file_bytes}

-- A SYN, and a frame that ends inside its Ethernet header.
abbrev pub syn_record : PcapRecord
syn_record = record {
  sec = 1;
  frac = 500;
  orig = 54;
  bytes = 2 ∷ 0 ∷ 0 ∷ 0 ∷ 0 ∷ 1 ∷ 2 ∷ 0 ∷ 0 ∷ 0 ∷ 0 ∷ 2 ∷ 8 ∷ 0 ∷ [] ++ ipv4_bytes ++ syn_bytes;
}

abbrev pub short_record : PcapRecord
short_record = record { sec = 2; frac = 0; orig = 60; bytes = 2 ∷ 0 ∷ 0 ∷ [] }

abbrev pub capture_file : List ℕ
capture_file = file_bytes false false 0x40002 0 0 65535 1 (syn_record ∷ short_record ∷ [])

-- A fresh engine and its first frame.
abbrev idle : Engine
idle = start sample_policy (pool 0xc6336401 40000 40002) default_timeouts false

idle-Orderly : Orderly sample_policy idle
idle-Orderly =
    start-Orderly sample_policy (pool 0xc6336401 40000 40002) default_timeouts false
      (pool-IsPool 0xc6336401 40000 40002 (omega arith) (omega arith)) refl

process-RulesOf_example : Ensures (RulesOf sample_policy) (process idle syn_frame 2000)
process-RulesOf_example =
    process-RulesOf sample_policy idle syn_frame 2000 idle-Orderly.engine (omega arith)
      idle-Orderly.rules

process-Accounted_example : Ensures Accounted (process idle syn_frame 2000)
process-Accounted_example =
    process-Accounted idle syn_frame 2000 idle-Orderly.engine (omega arith) idle-Orderly.accounted

process-Translated_example : Ensures Translated (process idle syn_frame 2000)
process-Translated_example =
    process-Translated idle syn_frame 2000 idle-Orderly.engine (omega arith) idle-Orderly.translated

-- A frame that ends inside its Ethernet header, ten seconds after the only packet of a session.
abbrev stray : ByteView × ℕ
stray = (empty_view, 10000000)

abbrev strays : ℕ → List (ByteView × ℕ)
strays zero = []
strays (suc n) = stray ∷ strays n

no_key : frame_key empty_view ≡ none
unfolding frame_key decode_eth has
no_key = refl

keyless : frame_key empty_view ≢ some (meta_key asking)
keyless e = cc (e, no_key)

outdated : expired 10000000 default_timeouts first ≡ true
unfolding expired for_session
outdated = refl

strays-Quiet : (n : ℕ) → Quiet (meta_key asking) default_timeouts first (strays n)
strays-Quiet zero = tt
strays-Quiet (suc n) = (keyless, outdated, strays-Quiet n)

indexed_first : find (meta_key asking) one_session.by_key ≡ some 0
unfolding find create assign make
indexed_first = refl

room : length one_session.sessions + length (strays 128) < 2 ^ 32
unfolding create
room = omega arith

feed-idle_example :
    Ensures
      (λ (e' : Engine).
        (find (meta_key asking) e'.flows.by_key ≡ none)
        × Ensures (λ r. is_closed r.state ≡ true) (get_elem? e'.flows.sessions 0))
      (feed engine (strays 128))
feed-idle_example =
    feed-idle engine (strays 128) (meta_key asking) 0 first engine-IsEngine room indexed_first
      get_first (omega arith) (strays-Quiet 128)
