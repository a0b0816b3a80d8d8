-- ===== src/DevList/Tests.antt =====
-- Device lists on a small filesystem.
use otdb.Base.{◌+◌, ◌<◌, ◌≡◌, refl, [], ◌∷◌, true, length, arith}
use otdb.Text.{
  codes, strtoull, is_space, skip_space, digit_value, digits_value, is_x, skip_prefix, split_sign,
  show_hex, show_loop, digit_char,
}
use otdb.Args.{Arglist, arglist}
use otdb.Files.Toy.{device, toy}
use otdb.DevList.{next_devices, devls_walk, devls_opening}
use otdb.DevList.Whole.{Holds, reply, devls_walk-Holds}

abbrev wanted : Arglist
wanted = record (arglist 0) { jsonout_flag = true; devid_strlist = codes "1A" ∷ (codes "7" ∷ []) }

-- The list asks for devices 0x1A and 7; the database has the second.
listed : (next_devices toy wanted.devid_strlist device).0 ≡ 7 ∷ []
unfolding next_devices strtoull is_space is_x skip_space digit_value digits_value skip_prefix
    split_sign
listed = refl

reply_runs : reply 7 (26 ∷ []) ≡ codes "{\"cmd\":\"dev-ls\", \"idlist\":[\"7\",\"1a\"]}"
unfolding devls_opening show_hex show_loop digit_char
reply_runs = refl

abbrev wide : Arglist
wide = record (arglist 0) { jsonout_flag = true }

room : length (reply 7 (26 ∷ [])) + 2 < 128
unfolding devls_opening show_hex show_loop digit_char
room = omega arith

devls_walk-Holds_example :
    Holds (reply 7 (26 ∷ [])) (devls_walk toy (7 ∷ (26 ∷ [])) wide 128 [] device)
devls_walk-Holds_example =
    devls_walk-Holds toy (7 ∷ (26 ∷ [])) wide 128 [] device 7 (26 ∷ []) refl refl room
