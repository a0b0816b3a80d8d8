-- ===== src/Hex/Roundtrip.antt =====
-- Encoding and decoding of main/cmds.c are inverse, and the bounded versions are prefixes.
use native.Mathlib.Nat.{sub-zero}
use otdb.Base.{
  ℕ, zero, suc, ◌+◌, ◌*◌, ◌-◌, ◌/◌, ◌%◌, ◌≡◌, refl, ap, List, [], ◌∷◌, ◌++◌, arith, ltb, ◌==◌,
  length, take, inl, inr, Bool-cases, ◌||◌,
}
use otdb.Base.Range.{AreBytes}
use otdb.Base.Splice.{take-nil}
use otdb.Hex.{hex_byte, hexread, hexnread, hexwrite_from, hexwrite, hexnwrite_from, hexnwrite}
use otdb.Hex.Digits.{hex_byte-hex_digit, hex_digit_pos}

hexread_stop : (rest : List ℕ) → hexread (0 ∷ rest) ≡ []
unfolding hexread
hexread_stop [] = refl
hexread_stop (lo ∷ src) = refl

hexread-hexwrite_from :
    (off : ℕ) (bs rest : List ℕ) → AreBytes bs → hexread ((hexwrite_from off bs).0 ++ rest) ≡ bs
unfolding hexread hexwrite_from
hexread-hexwrite_from off [] rest h = hexread_stop rest
hexread-hexwrite_from off (b ∷ bs) rest h = ground (
  arith,
  hexread-hexwrite_from (off + 2) bs rest h.1,
  hex_digit_pos (b / 16) (omega arith),
  hex_digit_pos (b % 16) (omega arith),
  hex_byte-hex_digit b h.0,
)

pub hexwrite_from_count : (off : ℕ) (bs : List ℕ) → (hexwrite_from off bs).1 ≡ off + 2 * length bs
unfolding hexwrite_from
hexwrite_from_count off [] = omega arith
hexwrite_from_count off (b ∷ bs) = omega (arith, hexwrite_from_count (off + 2) bs)

pub length-hexwrite_from :
    (off : ℕ) (bs : List ℕ) → length (hexwrite_from off bs).0 ≡ 2 * length bs + 1
unfolding hexwrite_from
length-hexwrite_from off [] = omega arith
length-hexwrite_from off (b ∷ bs) = omega (arith, length-hexwrite_from (off + 2) bs)

-- Decoding what cmd_hexwrite stored gives back the bytes, whatever follows its terminator in the
-- buffer; cmd_hexwrite returns twice the number of bytes, and stores one byte more than it returns.
pub hexread-hexwrite :
    (bs rest : List ℕ)
    → AreBytes bs
    → (hexread ((hexwrite bs).0 ++ rest) ≡ bs)
      × ((hexwrite bs).1 ≡ 2 * length bs)
      × (length (hexwrite bs).0 ≡ (hexwrite bs).1 + 1)
unfolding hexwrite
hexread-hexwrite bs rest h = (
  hexread-hexwrite_from 0 bs rest h,
  omega (arith, hexwrite_from_count 0 bs),
  omega (arith, hexwrite_from_count 0 bs, length-hexwrite_from 0 bs),
)

-- cmd_hexnread stores the first `dst_max` bytes of what cmd_hexread would store.
pub hexnread-eq-take :
    (src : List ℕ) (dst_max : ℕ) → hexnread src dst_max ≡ take dst_max (hexread src)
unfolding hexnread hexread
hexnread-eq-take src zero = refl
hexnread-eq-take [] (suc n) = refl
hexnread-eq-take (hi ∷ []) (suc n) = refl
hexnread-eq-take (hi ∷ lo ∷ src) (suc n) = elim (Bool-cases (hi == 0 || lo == 0)) [
  | inl e ↦ rw e
  | inr e ↦ rw e (ap (λ t. hex_byte hi lo ∷ t) (hexnread-eq-take src n))
]

hexnwrite_from-eq-hexwrite_from :
    (dst_max off : ℕ) (bs : List ℕ)
    → hexnwrite_from dst_max off bs ≡ hexwrite_from off (take ((dst_max - off) / 2) bs)
unfolding hexnwrite_from hexwrite_from
hexnwrite_from-eq-hexwrite_from m off [] = rw take-nil
hexnwrite_from-eq-hexwrite_from m off (b ∷ bs) = elim (Bool-cases (ltb (off + 1) m)) [
  | inl e ↦
      let k : (m - off) / 2 ≡ suc ((m - (off + 2)) / 2) = ground arith in
      rw (e, k, hexnwrite_from-eq-hexwrite_from m (off + 2) bs)
  | inr e ↦ let k : (m - off) / 2 ≡ 0 = ground arith in rw (e, k)
]

-- cmd_hexnwrite stores and returns what cmd_hexwrite does for the first `dst_max / 2` bytes.
pub hexnwrite-eq-hexwrite :
    (bs : List ℕ) (dst_max : ℕ) → hexnwrite bs dst_max ≡ hexwrite (take (dst_max / 2) bs)
unfolding hexnwrite hexwrite
hexnwrite-eq-hexwrite bs m = rw hexnwrite_from-eq-hexwrite_from (rw sub-zero)

pub hexwrite-count : (bs : List ℕ) → (hexwrite bs).1 ≡ 2 * length bs
unfolding hexwrite
hexwrite-count bs = omega (arith, hexwrite_from_count 0 bs)

pub length-hexwrite : (bs : List ℕ) → length (hexwrite bs).0 ≡ 2 * length bs + 1
unfolding hexwrite
length-hexwrite bs = length-hexwrite_from 0 bs
