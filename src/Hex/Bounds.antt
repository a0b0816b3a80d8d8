-- ===== src/Hex/Bounds.antt =====
-- How many bytes the bounded writer cmd_hexnwrite of main/cmds.c stores.
use otdb.Base.{
  ℕ, zero, suc, ◌+◌, ◌*◌, ◌/◌, ◌%◌, ◌≤◌, ◌≡◌, List, [], ◌∷◌, ◌++◌, arith, length, take, length-take,
  min,
}
use otdb.Base.Range.{AreBytes}
use otdb.Hex.{hexread, hexnread, hexwrite, hexnwrite}
use otdb.Hex.Roundtrip.{hexread-hexwrite, length-hexwrite_from, hexnwrite-eq-hexwrite}

pub AreBytes-take : (n : ℕ) (bs : List ℕ) → AreBytes bs → AreBytes (take n bs)
AreBytes-take zero bs h = tt
AreBytes-take (suc n) [] h = tt
AreBytes-take (suc n) (b ∷ bs) h = (h.0, AreBytes-take n bs h.1)

pub length-hexnread : (src : List ℕ) (dst_max : ℕ) → length (hexnread src dst_max) ≤ dst_max
unfolding hexnread
length-hexnread src zero = omega arith
length-hexnread [] (suc n) = omega arith
length-hexnread (hi ∷ []) (suc n) = omega arith
length-hexnread (hi ∷ lo ∷ src) (suc n) = ground (arith, length-hexnread src n)

length-hexnwrite :
    (bs : List ℕ) (dst_max : ℕ)
    → length (hexnwrite bs dst_max).0 ≡ 2 * min (dst_max / 2) (length bs) + 1
unfolding hexwrite
length-hexnwrite bs m =
    rw hexnwrite-eq-hexwrite
      (omega (arith, length-hexwrite_from 0 (take (m / 2) bs), length-take (m / 2) bs))

-- With an odd `dst_max` cmd_hexnwrite stores at most `dst_max` bytes, and what it stores decodes to
-- the first `dst_max / 2` bytes of the source, whatever follows in the buffer.
pub hexnwrite_fits :
    (bs rest : List ℕ) (dst_max : ℕ)
    → AreBytes bs
    → dst_max % 2 ≡ 1
    → (length (hexnwrite bs dst_max).0 ≤ dst_max)
      × (hexread ((hexnwrite bs dst_max).0 ++ rest) ≡ take (dst_max / 2) bs)
hexnwrite_fits bs rest m h odd = (
  omega (arith, length-hexnwrite bs m),
  rw hexnwrite-eq-hexwrite (hexread-hexwrite (take (m / 2) bs) rest (AreBytes-take (m / 2) bs h)).0,
)

-- With an even `dst_max`, zero included, and a source that fills it, cmd_hexnwrite stores
-- `dst_max + 1` bytes: its terminator lands one past the buffer.
hexnwrite_overflows :
    (bs : List ℕ) (dst_max : ℕ)
    → dst_max % 2 ≡ 0
    → dst_max ≤ 2 * length bs
    → length (hexnwrite bs dst_max).0 ≡ dst_max + 1
hexnwrite_overflows bs m even full = omega (arith, length-hexnwrite bs m)
