-- ===== src/JsonTools/Tests.antt =====
-- Names of types, and elements that are loaded and stored, on the small JSON library.
use otdb.Base.{ℕ, ◌/◌, ◌%◌, ◌^◌, ◌≡◌, ◌↔◌, refl, List, [], ◌∷◌, some, drop, arith, ◌⊎◌}
use otdb.Base.Int.{pos, negsuc}
use otdb.Text.{
  codes, strtoull, is_space, is_x, skip_space, digit_value, digits_value, skip_prefix, split_sign,
}
use otdb.Args.{low_bits}
use otdb.DevLink.{bytes_le}
use otdb.Cjson.Toy.{Named, number, toy_json, toy_floats}
use otdb.JsonTools.Names.{
  typesize, typesize_of, spec_of, type_max, b_type, c_type, starts, bit_count, parse_arraysize,
  strchr, size_after, as_int,
}
use otdb.JsonTools.Types.{IsSpec}
use otdb.JsonTools.Types.Exact.{typesize_iff}
use otdb.JsonTools.Elements.{load_element, store_element, Added, value_le, get_bits, set_bits}
use otdb.JsonTools.Elements.BitFields.{store-load_bits}
use otdb.JsonTools.Elements.Integers.{int16, store-load_integer}

text_of_32 : typesize (codes "char[32]") (spec_of type_max 0) ≡ (pos 0, spec_of 9 256)
unfolding typesize typesize_of c_type starts parse_arraysize strchr size_after as_int strtoull
    is_space is_x skip_space digit_value digits_value skip_prefix split_sign
text_of_32 = refl

-- A bit type of no bits is taken for a bit mask.
no_bits : typesize (codes "bit0_t") (spec_of type_max 0) ≡ (pos 0, spec_of 0 0)
unfolding typesize typesize_of b_type starts bit_count low_bits
no_bits = refl

three_bits : typesize (codes "bit3_t") (spec_of type_max 0) ≡ (pos 0, spec_of 3 3)
unfolding typesize typesize_of b_type starts bit_count low_bits
three_bits = refl

typesize_iff_example :
    ((typesize (codes "bit3_t") (spec_of type_max 0) ≡ (pos 0, spec_of 3 3))
      ↔ IsSpec (codes "bit3_t") (spec_of 3 3))
    × (((typesize (codes "bit3_t") (spec_of type_max 0)).0 ≡ pos 0)
        ⊎ ((typesize (codes "bit3_t") (spec_of type_max 0)).0 ≡ negsuc 0))
typesize_iff_example = typesize_iff (codes "bit3_t") (spec_of type_max 0) (spec_of 3 3)

abbrev five : Named
five = (codes "x", number (pos 5))

abbrev memory : List ℕ
memory = 255 ∷ 255 ∷ 255 ∷ 255 ∷ 9 ∷ []

store-load_bits_example :
    (mem1 : List ℕ) × (load_element toy_json toy_floats memory
        (pos 5)
        2
        (some (codes "bit3_t"))
        (some five)
      ≡ some (mem1, pos 0))
    × (store_element toy_floats mem1 3 2 (pos 3)
        ≡ some (Added.number (toy_floats.of_int (pos (low_bits 64 (pos 5) % 2 ^ 3)))))
    × (value_le 4 mem1 % 2 ^ 2 ≡ value_le 4 memory % 2 ^ 2)
    × (value_le 4 mem1 / 2 ^ 5 ≡ value_le 4 memory / 2 ^ 5)
    × (drop 4 mem1 ≡ drop 4 memory)
store-load_bits_example =
    store-load_bits toy_json toy_floats (codes "bit3_t") (pos 5) 2 3 five memory three_bits
      (omega arith) (omega arith) (omega arith) refl (omega arith) (omega arith) (omega arith)

-- A field of 3 bits from bit 6 on reaches into the second byte, which is not read back.
cut_off : get_bits 6 3 (bytes_le 4 (set_bits 0 6 3 5)) ≡ 1
unfolding get_bits set_bits bytes_le value_le
cut_off = refl

abbrev minus_two : Named
minus_two = (codes "t", number (negsuc 1))

store-load_integer_example :
    (mem1 : List ℕ) × (load_element toy_json toy_floats memory
        (pos 5)
        0
        (some (codes "int16_t"))
        (some minus_two)
      ≡ some (mem1, pos 2))
    × (store_element toy_floats mem1 13 0 (pos 16)
        ≡ some (Added.number (toy_floats.of_int (negsuc 1))))
    × (drop 2 mem1 ≡ drop 2 memory)
store-load_integer_example =
    store-load_integer toy_json toy_floats int16 (pos 5) 0 minus_two memory refl refl (omega arith)
      (omega arith) (omega arith) (omega arith)
