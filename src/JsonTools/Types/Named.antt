-- ===== src/JsonTools/Types/Named.antt =====
-- What jst_typesize of main/json_tools.c makes of each name of a type.
use otdb.Base.{
  ℕ, ◌+◌, ◌≤◌, ◌≡◌, refl, List, ◌∷◌, ◌++◌, true, false, ltb, ◌==◌, arith, inl, inr, Bool-cases,
}
use otdb.Base.Bytes.{bytes_eq}
use otdb.Base.Int.{pos}
use otdb.Text.{codes}
use otdb.JsonTools.Names.{
  TypeInfo, spec_of, b_type, c_type, h_type, int_type, named, typesize_of, typesize, starts,
}
use otdb.JsonTools.Types.{
  IsSpec, bitmask, bool, no_bits, bits, many_bits, text, char, hex_text, hex_byte, int8, uint8,
  int16, uint16, short, int, uint, int32, uint32, long, int64, uint64, float, double, bit_count_few,
  bit_count_many, low_bits_few, bit_type,
}

-- No bit type has the name of the bit mask.
not_bitmask : (c : ℕ) → bytes_eq (codes "it" ++ c ∷ codes "_t") (codes "itmask") ≡ false
not_bitmask c = elim (Bool-cases (c == b'm')) [ inl e ↦ rw e refl | inr e ↦ rw e refl ]

-- A bit type of a digit up to 8.
bit_typesize :
    (n : ℕ) (spec : TypeInfo) → n ≤ 8 → typesize (bit_type (48 + n)) spec ≡ (pos 0, spec_of n n)
unfolding typesize typesize_of b_type starts
bit_typesize n spec h =
    let known : ltb n 21 ≡ true = ground (arith, h) in
    rw (not_bitmask (48 + n), bit_count_few n h, low_bits_few n h, known) refl

-- Every name is taken for what it says.
pub typesize-named :
    (type : List ℕ) (spec found : TypeInfo)
    → IsSpec type found
    → typesize type spec ≡ (pos 0, found)
unfolding typesize typesize_of b_type c_type h_type int_type named starts
typesize-named _ spec _ bitmask = refl
typesize-named _ spec _ bool = refl
typesize-named _ spec _ no_bits = bit_typesize 0 spec (omega arith)
typesize-named _ spec _ (bits n l h) = bit_typesize n spec h
typesize-named _ spec _ (many_bits c l h) =
    rw (not_bitmask c, bit_count_many c l h, low_bits_few 8 (omega arith)) refl
typesize-named _ spec _ (text rest e) = rw e refl
typesize-named _ spec _ (char rest e) = rw e refl
typesize-named _ spec _ (hex_text rest e) = rw e refl
typesize-named _ spec _ (hex_byte rest e) = rw e refl
typesize-named _ spec _ int8 = refl
typesize-named _ spec _ uint8 = refl
typesize-named _ spec _ int16 = refl
typesize-named _ spec _ uint16 = refl
typesize-named _ spec _ short = refl
typesize-named _ spec _ (int rest e) = rw e refl
typesize-named _ spec _ (uint rest e) = rw e refl
typesize-named _ spec _ int32 = refl
typesize-named _ spec _ uint32 = refl
typesize-named _ spec _ long = refl
typesize-named _ spec _ int64 = refl
typesize-named _ spec _ uint64 = refl
typesize-named _ spec _ float = refl
typesize-named _ spec _ double = refl
