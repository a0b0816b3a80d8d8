-- ===== src/Hex.antt =====
-- The hexadecimal codec of main/cmds.c: hexlut0, hexlut1, cmd_hexread, cmd_hexnread,
-- sub_hexwrite, cmd_hexwrite, cmd_hexnwrite. A C string is the list of its bytes, and what lies
-- past the end of the list reads as the terminator. A writer returns the bytes that it stores from
-- `dst` on, the terminator included, beside its C return value.
mod Digits
pub mod Roundtrip
pub mod Bounds
pub mod InPlace
mod Tests
use otdb.Base.{
  ℕ, zero, suc, ◌+◌, ◌/◌, ◌%◌, List, [], ◌∷◌, ◌++◌, ◌||◌, get_or, ltb, ◌==◌, if◌then◌else◌, set,
}

abbrev zeros16 : List ℕ
zeros16 = 0 ∷ 0 ∷ 0 ∷ 0 ∷ 0 ∷ 0 ∷ 0 ∷ 0 ∷ 0 ∷ 0 ∷ 0 ∷ 0 ∷ 0 ∷ 0 ∷ 0 ∷ 0 ∷ []

abbrev letters0 : List ℕ
letters0 = 0 ∷ 160 ∷ 176 ∷ 192 ∷ 208 ∷ 224 ∷ 240 ∷ 0 ∷ 0 ∷ 0 ∷ 0 ∷ 0 ∷ 0 ∷ 0 ∷ 0 ∷ 0 ∷ []

abbrev letters1 : List ℕ
letters1 = 0 ∷ 10 ∷ 11 ∷ 12 ∷ 13 ∷ 14 ∷ 15 ∷ 0 ∷ 0 ∷ 0 ∷ 0 ∷ 0 ∷ 0 ∷ 0 ∷ 0 ∷ 0 ∷ []

abbrev digits0 : List ℕ
digits0 = 0 ∷ 16 ∷ 32 ∷ 48 ∷ 64 ∷ 80 ∷ 96 ∷ 112 ∷ 128 ∷ 144 ∷ 0 ∷ 0 ∷ 0 ∷ 0 ∷ 0 ∷ 0 ∷ []

abbrev digits1 : List ℕ
digits1 = 0 ∷ 1 ∷ 2 ∷ 3 ∷ 4 ∷ 5 ∷ 6 ∷ 7 ∷ 8 ∷ 9 ∷ 0 ∷ 0 ∷ 0 ∷ 0 ∷ 0 ∷ 0 ∷ []

-- The tables, in rows of sixteen.
pub hexlut0 : List ℕ
hexlut0 =
    zeros16
    ++ (zeros16 ++ (zeros16 ++ (digits0 ++ (letters0 ++ (zeros16 ++ (letters0 ++ zeros16))))))

pub hexlut1 : List ℕ
hexlut1 =
    zeros16
    ++ (zeros16 ++ (zeros16 ++ (digits1 ++ (letters1 ++ (zeros16 ++ (letters1 ++ zeros16))))))

-- `hexlut0[hi & 0x7f] + hexlut1[lo & 0x7f]` in a uint8_t.
pub hex_byte : ℕ → ℕ → ℕ
unfolding hexlut0 hexlut1
hex_byte hi lo = (get_or hexlut0 (hi % 128) 0 + get_or hexlut1 (lo % 128) 0) % 256

-- The bytes that cmd_hexread stores; it returns their number.
pub hexread : List ℕ → List ℕ
hexread [] = []
hexread (hi ∷ []) = []
hexread (hi ∷ lo ∷ src) =
    let rest = hexread src in if hi == 0 || lo == 0 then [] else hex_byte hi lo ∷ rest

-- The bytes that cmd_hexnread stores; it returns their number.
pub hexnread : List ℕ → ℕ → List ℕ
hexnread src zero = []
hexnread [] (suc dst_max) = []
hexnread (hi ∷ []) (suc dst_max) = []
hexnread (hi ∷ lo ∷ src) (suc dst_max) =
    let rest = hexnread src dst_max in if hi == 0 || lo == 0 then [] else hex_byte hi lo ∷ rest

-- cmd_hexnread where `dst` and `src` are pointers into one buffer, as cmd_read calls it: `r` and
-- `w` are the offsets of the two cursors, and the result is the buffer with the final `w`.
pub hexnread_mem : List ℕ → ℕ → ℕ → ℕ → List ℕ × ℕ
hexnread_mem buf r w zero = (buf, w)
hexnread_mem buf r w (suc dst_max) =
    let hi = get_or buf r 0 in
    let lo = get_or buf (r + 1) 0 in
    let rest = hexnread_mem (set buf w (hex_byte hi lo)) (r + 2) (w + 1) dst_max in
    if hi == 0 || lo == 0 then (buf, w) else rest

pub convert : List ℕ
convert =
    b'0' ∷ b'1' ∷ b'2' ∷ b'3' ∷ b'4' ∷ b'5' ∷ b'6' ∷ b'7' ∷ b'8' ∷ b'9' ∷ b'A' ∷ b'B' ∷ b'C' ∷ b'D'
    ∷ b'E' ∷ b'F' ∷ []

-- `convert[i]`
pub hex_digit : ℕ → ℕ
unfolding convert
hex_digit i = get_or convert i 0

-- cmd_hexwrite over the `src_bytes` bytes of `src`; the number is the return value.
pub hexwrite_from : ℕ → List ℕ → List ℕ × ℕ
unfolding hex_digit
hexwrite_from off [] = (0 ∷ [], off)
hexwrite_from off (b ∷ src) =
    let (out, n) = hexwrite_from (off + 2) src in (hex_digit (b / 16) ∷ hex_digit (b % 16) ∷ out, n)

pub hexwrite : List ℕ → List ℕ × ℕ
hexwrite src = hexwrite_from 0 src

-- cmd_hexnwrite: `off` is `dst - start`, and `dst < end` is `off < dst_max - 1`.
pub hexnwrite_from : ℕ → ℕ → List ℕ → List ℕ × ℕ
hexnwrite_from dst_max off [] = (0 ∷ [], off)
hexnwrite_from dst_max off (b ∷ src) =
    let rest = hexnwrite_from dst_max (off + 2) src in
    if ltb (off + 1) dst_max
    then (hex_digit (b / 16) ∷ hex_digit (b % 16) ∷ rest.0, rest.1)
    else (0 ∷ [], off)

pub hexnwrite : List ℕ → ℕ → List ℕ × ℕ
hexnwrite src dst_max = hexnwrite_from dst_max 0 src
