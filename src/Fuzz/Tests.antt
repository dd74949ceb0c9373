-- ===== src/Fuzz/Tests.antt =====
-- A run of the fuzz targets on a capture frame.
use nano_ngfw.Prelude.{◌≡◌, List, [], ◌∷◌, ◌++◌, ℕ, some}
use nano_ngfw.Decode.Tests.{ipv4_bytes, syn_bytes}
use nano_ngfw.Fuzz.{fuzz_decode, fuzz_tls}
use nano_ngfw.Fuzz.Returns.{fuzz_return}

abbrev frame : List ℕ
frame = 2 ∷ 0 ∷ 0 ∷ 0 ∷ 0 ∷ 1 ∷ 2 ∷ 0 ∷ 0 ∷ 0 ∷ 0 ∷ 2 ∷ 8 ∷ 0 ∷ [] ++ ipv4_bytes ++ syn_bytes

fuzz_return_example : (fuzz_decode frame ≡ some tt) × (fuzz_tls frame ≡ some tt)
fuzz_return_example = fuzz_return frame
