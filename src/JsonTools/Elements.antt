-- ===== src/JsonTools/Elements.antt =====
-- jst_load_element and jst_store_element of main/json_tools.c on a little-endian machine. The bytes
-- from `dst` or `src` on are a list, whose end is the end of the memory; `none` is an access behind it.
pub mod BitFields
pub mod Integers
use otdb.Base.{
  ℕ, zero, suc, ◌+◌, ◌-◌, ◌*◌, ◌/◌, ◌%◌, ◌^◌, List, [], ◌∷◌, ◌++◌, Bool, true, false, not, ◌||◌,
  Option, none, some, length, take, drop, replicate, min, ltb, leb, ◌==◌, if◌then◌else◌,
}
use otdb.Base.Int.{ℤ, pos, negsuc, ltb_ℤ, pos_part, sub_ℕ}
use otdb.Args.{low_bits}
use otdb.Hex.{hexread, hexnread, hexwrite}
use otdb.DevLink.{bytes_le}
use otdb.Cjson.{Cjson, Floats}
use otdb.JsonTools.Names.{
  TypeInfo, typesize, type_bitmask, type_bit8, type_string, type_hex, type_int8, type_int16,
  type_int32, type_int64, type_float, type_double, spec_of, type_max,
}

-- memcpy to the start of the memory
unfoldable pub put : List ℕ → List ℕ → Option (List ℕ)
put bytes mem =
    if leb (length bytes) (length mem) then some (bytes ++ drop (length bytes) mem) else none

-- The number in the first k bytes, the lowest first.
unfoldable pub value_le : ℕ → List ℕ → ℕ
value_le zero mem = 0
value_le (suc k) [] = 0
value_le (suc k) (b ∷ mem) = b + 256 * value_le k mem

-- What jst_load_element leaves and returns.
abbrev pub Loaded : Type 0
Loaded = Option (List ℕ × ℤ)

unfoldable pub returns : ℤ → Option (List ℕ) → Loaded
returns bytesout none = none
returns bytesout (some mem) = some (mem, bytesout)

-- `scr` with `bits` bits from `bitpos` on replaced by those of `dat`.
unfoldable pub set_bits : ℕ → ℕ → ℕ → ℕ → ℕ
set_bits scr bitpos bits dat =
    (scr / 2 ^ (bitpos + bits) * 2 ^ (bitpos + bits)
      + dat % 2 ^ bits * 2 ^ bitpos
      + scr % 2 ^ bitpos)
    % 2 ^ 32

-- A size in bits, in bytes.
unfoldable pub bytes_of : ℤ → ℤ
bytes_of (pos n) = pos (n / 8)
bytes_of (negsuc n) = sub_ℕ 0 (suc n / 8)

-- A copy of `bytesout` bytes, where they are not more than `limit`.
unfoldable pub copy_in : ℤ → ℤ → List ℕ → List ℕ → Loaded
copy_in (negsuc n) limit source mem = none
copy_in (pos n) limit source mem =
    if ltb_ℤ limit (pos n)
    then some (mem, pos n)
    else if ltb (length source) n
    then none
    else returns (pos n) (put (take n source) mem)

unfoldable pub hex_in : ℤ → ℤ → List ℕ → List ℕ → Loaded
hex_in (negsuc n) limit text mem = none
hex_in (pos n) limit text mem =
    if ltb_ℤ limit (pos n) then some (mem, pos n) else returns (pos n) (put (hexnread text n) mem)

module _ (cj : Cjson) (fl : Floats) where
  -- The text of a string item, where cJSON_IsString holds.
  unfoldable pub string_text : cj.Item → Option (List ℕ)
  string_text value = if cj.is_string value then cj.valuestring value else none

  -- `dat`, of which at most 8 bits count
  unfoldable pub bit_data : cj.Item → Option (List ℕ) → ℕ
  bit_data value none = if cj.is_number value then low_bits 64 (cj.valueint value) else 0
  bit_data value (some text) =
      if cj.is_number value
      then low_bits 64 (cj.valueint value)
      else value_le 8 (hexnread text 8 ++ replicate 8 0)

  -- The bit types: four bytes are read and written, however few are below `limit`.
  unfoldable pub load_bits : ℤ → ℕ → ℕ → cj.Item → List ℕ → Loaded
  load_bits limit bitpos bits value mem =
      let dat = bit_data value (string_text value) in
      if ltb_ℤ limit (pos (1 + (bitpos + bits) / 8))
      then some (mem, pos 0)
      else if ltb (length mem) 4
      then none
      else returns (pos 0) (put (bytes_le 4 (set_bits (value_le 4 mem) bitpos bits dat)) mem)

  unfoldable pub load_string : ℤ → ℤ → cj.Item → Option (List ℕ) → List ℕ → Loaded
  load_string bits limit value none mem = some (mem, pos 0)
  load_string bits limit value (some text) mem =
      copy_in (bytes_of bits) limit (text ++ 0 ∷ cj.behind value) mem

  unfoldable pub load_hex : ℤ → ℤ → Option (List ℕ) → List ℕ → Loaded
  load_hex bits limit none mem = some (mem, pos 0)
  load_hex bits limit (some text) mem = hex_in (bytes_of bits) limit text mem

  -- The bytes of a number: of `valueint`, and what lies behind it, or of the double.
  unfoldable pub number_bytes : ℕ → cj.Item → List ℕ
  number_bytes index value =
      if index == type_float
      then bytes_le 4 (fl.to_float (cj.valuedouble value))
      else if index == type_double
      then bytes_le 8 (cj.valuedouble value)
      else bytes_le 4 (low_bits 32 (cj.valueint value)) ++ cj.padding value

  -- memset, and then cmd_hexread without a bound
  unfoldable pub hex_over : ℕ → List ℕ → List ℕ → Option (List ℕ)
  hex_over n text mem = elim (put (replicate n 0) mem) [
    | none ↦ none
    | some m ↦ put (hexread text) m
  ]

  unfoldable pub load_number : ℕ → ℕ → cj.Item → Option (List ℕ) → List ℕ → Loaded
  load_number index n value (some text) mem = returns (pos n) (hex_over n text mem)
  load_number index n value none mem =
      if cj.is_number value
      then copy_in (pos n) (pos n) (number_bytes index value) mem
      else some (mem, pos n)

  -- The switch of jst_load_element.
  unfoldable pub load_typed : TypeInfo → ℤ → ℕ → cj.Item → List ℕ → Loaded
  load_typed spec limit bitpos value mem =
      let n = pos_part (bytes_of spec.bits) in
      if spec.index == type_bitmask
      then some (mem, sub_ℕ 0 n)
      else if leb spec.index type_bit8
      then load_bits limit bitpos (pos_part spec.bits) value mem
      else if spec.index == type_string
      then load_string spec.bits limit value (string_text value) mem
      else if spec.index == type_hex
      then load_hex spec.bits limit (string_text value) mem
      else if ltb_ℤ limit (pos n)
      then some (mem, pos n)
      else load_number spec.index n value (string_text value) mem

  unfoldable pub load_checked : ℤ × TypeInfo → ℤ → ℕ → cj.Item → List ℕ → Loaded
  load_checked (negsuc n, spec) limit bitpos value mem = some (mem, pos 0)
  load_checked (pos n, spec) limit bitpos value mem = load_typed spec limit bitpos value mem

  -- jst_load_element, with `dst` there. `type` and `value` are `none` for a null pointer.
  unfoldable pub load_element : List ℕ → ℤ → ℕ → Option (List ℕ) → Option cj.Item → Loaded
  load_element mem limit bitpos none value = some (mem, pos 0)
  load_element mem limit bitpos (some type) none = some (mem, pos 0)
  load_element mem limit bitpos (some type) (some value) =
      if ltb_ℤ (pos 0) limit
      then load_checked (typesize type (spec_of type_max 0)) limit bitpos value mem
      else some (mem, pos 0)

-- What jst_store_element adds to its parent; `nothing` is a null pointer.
pub data Added : Type 0 where
  nothing object : Added
  number : ℕ → Added
  text : List ℕ → Added

-- The first `bits` bits from `bitpos` on of the bytes that are read: one, and one more for 8 bits.
unfoldable pub get_bits : ℕ → ℕ → List ℕ → ℕ
get_bits bitpos bits src = value_le (1 + bits / 8) src / 2 ^ bitpos % 2 ^ bits

-- A number of w bits, signed.
unfoldable pub signed : ℕ → ℕ → ℤ
signed w n = if ltb n (2 ^ (w - 1)) then pos n else sub_ℕ n (2 ^ w)

-- Up to the first zero.
unfoldable pub c_text : List ℕ → List ℕ
c_text [] = []
c_text (b ∷ s) = let rest = c_text s in if b == 0 then [] else b ∷ rest

unfoldable pub store_integer : (fl : Floats) → ℕ → ℕ → List ℕ → Option Added
store_integer fl w index src =
    let n = value_le (w / 8) src in
    if ltb (length src) (w / 8)
    then none
    else some (number (fl.of_int (if index % 2 == 1 then signed w n else pos n)))

-- The switch of jst_store_element, for `bits` above 0. The digits of a hex item go to a buffer of 512
-- bytes.
unfoldable pub store_typed : (fl : Floats) → List ℕ → ℕ → ℕ → ℕ → Option Added
store_typed fl src index bitpos bits =
    if index == type_bitmask
    then some object
    else if leb index type_bit8
    then (if ltb (length src) (1 + bits / 8)
        then none
        else some (number (fl.of_int (pos (get_bits bitpos bits src)))))
    else if index == type_string
    then (if ltb (length src) (bits / 8 + 1)
        then none
        else some (text (c_text (take (bits / 8) src))))
    else if index == type_hex
    then (let digits = hexwrite (take (bits / 8) src) in
        if ltb (length src) (bits / 8) || ltb 512 (length digits.0)
        then none
        else some (text (c_text digits.0)))
    else if ltb index type_int16
    then store_integer fl 8 index src
    else if ltb index type_int32
    then store_integer fl 16 index src
    else if ltb index type_int64
    then store_integer fl 32 index src
    else if ltb index type_float
    then store_integer fl 64 index src
    else if index == type_float
    then (if ltb (length src) 4 then none else some (number (fl.of_float (value_le 4 src))))
    else if index == type_double
    then (if ltb (length src) 8 then none else some (number (value_le 8 src)))
    else some nothing

-- jst_store_element, with `parent` and `src` there.
unfoldable pub store_element : (fl : Floats) → List ℕ → ℕ → ℕ → ℤ → Option Added
store_element fl src index bitpos bits =
    if ltb_ℤ (pos 0) bits then store_typed fl src index bitpos (pos_part bits) else some nothing
