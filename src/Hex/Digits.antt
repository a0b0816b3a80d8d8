-- ===== src/Hex/Digits.antt =====
-- What one pair of digits decodes to, over the tables hexlut0, hexlut1 and convert of main/cmds.c.
use otdb.Base.{ℕ, ◌*◌, ◌/◌, ◌%◌, ◌<◌, ◌≡◌, refl, true, ◌&&◌, arith, ◌==◌, get_or, not, Bool}
use otdb.Base.Range.{passes, passes_at}
use otdb.Hex.{hexlut0, hexlut1, hex_byte, hex_digit}

digit_test : ℕ → Bool
digit_test i =
    (get_or hexlut0 (hex_digit i % 128) 0 == 16 * i)
    && (get_or hexlut1 (hex_digit i % 128) 0 == i)
    && not (hex_digit i == 0)

digit_table : passes digit_test 16 ≡ true
unfolding passes digit_test hexlut0 hexlut1 hex_digit
digit_table = refl

pub digit_facts :
    (i : ℕ)
    → i < 16
    → (get_or hexlut0 (hex_digit i % 128) 0 ≡ 16 * i)
      × (get_or hexlut1 (hex_digit i % 128) 0 ≡ i)
      × (0 < hex_digit i)
unfolding digit_test
digit_facts i h = ground (arith, passes_at digit_test 16 i h digit_table)

pub hex_byte-hex_digit : (b : ℕ) → b < 256 → hex_byte (hex_digit (b / 16)) (hex_digit (b % 16)) ≡ b
unfolding hex_byte
hex_byte-hex_digit b h =
    omega (arith, digit_facts (b / 16) (omega arith), digit_facts (b % 16) (omega arith))

pub hex_digit_pos : (i : ℕ) → i < 16 → 0 < hex_digit i
hex_digit_pos i h = (digit_facts i h).2

pub hex_byte-lt : (hi lo : ℕ) → hex_byte hi lo < 256
unfolding hex_byte
hex_byte-lt hi lo = omega arith
