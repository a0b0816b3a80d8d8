-- ===== src/Hex/Tests.antt =====
-- Runs of the codec of main/cmds.c, and the theorems at concrete inputs.
use otdb.Base.{ℕ, ◌+◌, ◌*◌, ◌≤◌, ◌≡◌, refl, List, [], ◌∷◌, ◌++◌, arith, length, take, drop}
use otdb.Base.Splice.{splice}
use otdb.Hex.{
  hex_byte, hex_digit, hexread, hexnread, hexnread_mem, hexwrite_from, hexwrite, hexnwrite,
}
use otdb.Hex.Roundtrip.{hexread-hexwrite}
use otdb.Hex.Bounds.{hexnwrite_fits}
use otdb.Hex.InPlace.{hexnread_mem-eq-splice}

abbrev sample : List ℕ
sample = 0 ∷ 255 ∷ 161 ∷ []

abbrev digits : List ℕ
digits = b'0' ∷ b'0' ∷ b'F' ∷ b'F' ∷ b'A' ∷ b'1' ∷ 0 ∷ []

hexwrite_runs : hexwrite sample ≡ (digits, 6)
unfolding hexwrite hexwrite_from hex_digit
hexwrite_runs = refl

-- Lower case is read, and a character that is no digit counts as 0.
hexread_runs : hexread (b'a' ∷ b'f' ∷ b'x' ∷ b'7' ∷ b'1' ∷ []) ≡ 175 ∷ 7 ∷ []
unfolding hexread hex_byte
hexread_runs = refl

hexread-hexwrite_example :
    (hexread ((hexwrite sample).0 ++ b'F' ∷ b'F' ∷ []) ≡ sample)
    × ((hexwrite sample).1 ≡ 2 * length sample)
    × (length (hexwrite sample).0 ≡ (hexwrite sample).1 + 1)
hexread-hexwrite_example = hexread-hexwrite sample (b'F' ∷ b'F' ∷ []) (omega arith)

hexnwrite_fits_example :
    (length (hexnwrite sample 5).0 ≤ 5) × (hexread ((hexnwrite sample 5).0 ++ []) ≡ take 2 sample)
hexnwrite_fits_example = hexnwrite_fits sample [] 5 (omega arith) (omega arith)

hexnread_mem-eq-splice_example :
    hexnread_mem digits 2 1 8
    ≡ (splice 1 (hexnread (drop 2 digits) 8) digits, 1 + length (hexnread (drop 2 digits) 8))
hexnread_mem-eq-splice_example = hexnread_mem-eq-splice 8 digits 2 1 (omega arith)
