-- ===== src/Text/Tests.antt =====
-- Runs of the text functions, and the theorem at a concrete device ID.
use otdb.Base.{◌≡◌, refl, arith}
use otdb.Base.Int.{negsuc}
use otdb.Text.{
  codes, is_space, is_x, skip_space, digit_value, digits_value, skip_prefix, split_sign, strtoull,
  atoi, digit_char, show_loop, show_hex, show_dec, show_int,
}
use otdb.Text.Numbers.{strtoull-show}

strtoull_runs :
    (strtoull (codes "  0x1Fg") 16 ≡ 31)
    × (strtoull (codes "077") 8 ≡ 63)
    × (strtoull (codes "0x") 16 ≡ 0)
    × (strtoull (codes "-1") 16 ≡ 18446744073709551615)
unfolding strtoull is_space is_x skip_space digit_value digits_value skip_prefix split_sign
strtoull_runs = (refl, refl, refl, refl)

atoi_runs : atoi (codes "-12:3") ≡ negsuc 11
unfolding atoi is_space skip_space digit_value digits_value split_sign
atoi_runs = refl

show_runs : (show_hex 0xdeadbeef ≡ codes "deadbeef") × (show_int (negsuc 511) ≡ codes "-512")
unfolding show_hex show_int show_dec show_loop digit_char
show_runs = (refl, refl)

strtoull-show_example :
    (strtoull (show_hex 0xdeadbeef) 16 ≡ 0xdeadbeef)
    × (strtoull (show_dec 0xdeadbeef) 10 ≡ 0xdeadbeef)
strtoull-show_example = strtoull-show 0xdeadbeef (omega arith)
