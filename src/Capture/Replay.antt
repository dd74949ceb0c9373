-- ===== src/Capture/Replay.antt =====
-- The loop of src/main.cpp over a capture file.
use nano_ngfw.Prelude.{
  ℕ, zero, suc, ◌+◌, ◌*◌, ◌^◌, ◌≤◌, ◌<◌, ◌≡◌, ◌⊎◌, inl, inr, refl, subst, Option-cases, false, Bool,
  List, [], ◌∷◌, Option, none, some, arith, length, Ensures, Text, ◌>>=◌,
}
use nano_ngfw.ByteView.{ByteView}
use nano_ngfw.Pcap.{
  PcapReader, opened, opened_with, open_file, global_header, magic_flags, read_exact, next, collect,
  read_all,
}
use nano_ngfw.Pcap.Accounting.{size, Accounts, read_all-Accounts, read_exact-ReadExact, ReadExact}
use nano_ngfw.Policy.{Policy}
use nano_ngfw.Flow.{Timeouts}
use nano_ngfw.Nat.{NatPool}
use nano_ngfw.Nat.Ports.{IsPool}
use nano_ngfw.Engine.{Engine, process, finish}
use nano_ngfw.Capture.{start, process_all, replay, replay_round}
use nano_ngfw.Capture.Whole.{Balanced, Orderly, process_all-Balanced}

-- The run over the frames, with the reader it leaves.
abbrev with_reader : PcapReader → Option Engine → Option (Engine × PcapReader)
with_reader r o = o >>= λ e. some (e, r)

with_reader-bind :
    (r : PcapReader) (o : Option Engine) (f : Engine → Option (Engine × PcapReader))
    (g : Engine → Option Engine)
    → ((e : Engine) → f e ≡ with_reader r (g e))
    → (o >>= f) ≡ with_reader r (o >>= g)
with_reader-bind r none f g h = refl
with_reader-bind r (some e) f g h = h e

replay_round_lem :
    (fuel : ℕ) (o : PcapReader × Option (ByteView × ℕ)) (e : Engine) (last : ℕ)
    (w : List (ByteView × ℕ) × PcapReader)
    → ((r : PcapReader) (e : Engine) (last : ℕ) (w : List (ByteView × ℕ) × PcapReader)
        → read_all fuel r ≡ some w
        → replay fuel r e last ≡ with_reader w.1 (process_all e w.0 last))
    → collect (read_all fuel) o ≡ some w
    → replay_round (replay fuel) o e last ≡ with_reader w.1 (process_all e w.0 last)
unfolding replay_round collect process_all
replay_round_lem fuel (r, none) e last w ih h =
    let q : ([], r) ≡ w = cc in
    subst
      (λ (w : List (ByteView × ℕ) × PcapReader).
        ((finish e last) >>= λ e'. some (e', r)) ≡ with_reader w.1 (process_all e w.0 last))
      q refl
replay_round_lem fuel (r, some (frame, ts)) e last w ih h = elim (Option-cases (read_all fuel r)) [
  | inl out ↦ let h' = rw (collect, out) at h in cc
  | inr (v, read) ↦
      let h' = rw (collect, read) at h in
      let q : ((frame, ts) ∷ v.0, v.1) ≡ w = cc in
      subst
        (λ (w : List (ByteView × ℕ) × PcapReader).
          ((process e frame ts) >>= λ e'. replay fuel r e' ts)
          ≡ with_reader w.1 (process_all e w.0 last))
        q (with_reader-bind v.1 (process e frame ts) _ _ λ e'. ih r e' ts v read)
]

-- The loop makes of an engine what the frames of the reader make of it, one after the other.
replay-process_all :
    (fuel : ℕ) (r : PcapReader) (e : Engine) (last : ℕ) (w : List (ByteView × ℕ) × PcapReader)
    → read_all fuel r ≡ some w
    → replay fuel r e last ≡ with_reader w.1 (process_all e w.0 last)
unfolding replay read_all
replay-process_all zero r e last w h = cc
replay-process_all (suc fuel) r e last w h =
    replay_round_lem fuel (next r) e last w (replay-process_all fuel) h

-- A run that ends has at most one frame for 16 bytes of the file.
frames-le-size : (fs : List (ByteView × ℕ)) → length fs * 16 ≤ size fs
frames-le-size [] = omega arith
frames-le-size (f ∷ fs) = omega (arith, frames-le-size fs)

frames-le-unread :
    (r : PcapReader) (w : List (ByteView × ℕ) × PcapReader)
    → Accounts r w
    → length w.0 * 16 ≤ length r.unread
frames-le-unread r w (_, inl (e, _)) = omega (arith, frames-le-size w.0)
frames-le-unread r w (_, inr (l, _)) = omega (arith, frames-le-size w.0)

-- A reader that was just opened has not failed, and has no more to read than the file has.
abbrev JustOpened : ℕ → Text ⊎ PcapReader → Type 0
JustOpened n (inl why) = Unit {0}
JustOpened n (inr r) = (r.failed ≡ false) × (r.truncated ≡ false) × (length r.unread ≤ n)

opened_with-JustOpened :
    (r : PcapReader) (o : PcapReader × Option (List ℕ))
    → ReadExact r 24 o
    → r.truncated ≡ false
    → JustOpened (length r.unread) (opened_with o)
unfolding opened_with global_header magic_flags
opened_with-JustOpened r (r', none) e t = tt
opened_with-JustOpened r (r', some buf) (n, l, f, u) t = ground arith

open_file-JustOpened :
    (path : Text) (file : List ℕ) → JustOpened (length file) (open_file path (some file))
unfolding open_file
open_file-JustOpened path file =
    opened_with-JustOpened (opened file) (read_exact (opened file) 24)
      (read_exact-ReadExact (opened file) 24 refl) refl

-- Whatever bytes are in a file of less than 64 GiB that opens as a capture: a fresh engine with any rule
-- base, timeouts and sound NAT pool whose ports are out in order replays it to its end without a fault, closes orderly and
-- with counters that balance, and each of the reader's rounds takes bytes of the file, so that its length
-- is fuel enough.
pub replay-Balanced :
    (path : Text) (file : List ℕ) (r : PcapReader) (p : Policy) (nat : NatPool) (t : Timeouts)
    (midstream : Bool)
    → open_file path (some file) ≡ inr r
    → length file < 2 ^ 36
    → IsPool nat
    → nat.next_port ≡ nat.first_port + nat.in_use
    → Ensures
        (λ o. Orderly p o.0 × Balanced o.0)
        (replay (length file + 1) r (start p nat t midstream) 0)
replay-Balanced path file r p nat t midstream open' b v h =
    let (failed, cut, most) =
      subst (JustOpened (length file)) open' (open_file-JustOpened path file) in
    let (w, read, accounts) = read_all-Accounts (length file + 1) r failed (omega arith) in
    let few = frames-le-unread r w accounts in
    let (e, run, sound) = process_all-Balanced p nat t midstream w.0 v h (omega arith) in
    rw (replay-process_all (length file + 1) r (start p nat t midstream) 0 w read, run)
      (_, refl, sound)
