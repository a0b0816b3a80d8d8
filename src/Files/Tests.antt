-- ===== src/Files/Tests.antt =====
-- cmd_del, cmd_new, cmd_restore and cmd_writeperms on a small filesystem.
use otdb.Base.{ℕ, ◌≡◌, refl, List, [], false, none, some}
use otdb.Base.Int.{ℤ, pos, negsuc, ◌+ℤ◌}
use otdb.Text.{
  codes, is_space, is_x, skip_space, digit_value, digits_value, skip_prefix, split_sign, strtoull,
  atoi,
}
use otdb.Args.{Parsed, arglist, low_bits, drop_colons, token, first_token, strtok_colon}
use otdb.Args.Extract.{
  take_errors, put_devid_opt, take_devid, take_archive, take_flags, take_age, put_block, take_block,
  bound, put_range, take_range, take_fileid, put_perms, take_perms, put_alloc, take_alloc,
  take_filedata, extract_args,
}
use otdb.Files.{select, selected, reply_err}
use otdb.Files.Toy.{Device, device, toy}
use otdb.Files.Admin.{new_fields, cmd_del, cmd_new}

-- A decoder that decodes nothing.
abbrev no_bintex : List ℕ → List ℕ → ℤ → List ℕ × ℤ
no_bintex text dst max = (dst, pos 0)

-- `new -i 1A -b gfb 5 66 64`, with a range
abbrev line : Parsed
line = record {
  help = false;
  nerrors = 0;
  devid_man = none;
  devid_opt = some (codes "1A");
  archive_man = none;
  jsonout_opt = false;
  soft_opt = false;
  compress_opt = false;
  devidlist_opt = [];
  fileage_opt = none;
  fileblock_opt = some (codes "gfb");
  filerange_opt = some (codes "2:10");
  fileid_count = 1;
  fileid_ival = pos 5;
  fileperms_man = some (codes "66");
  filealloc_man = some (pos 64);
  filedata_man = none;
}

-- The device 1A is not there.
new_runs :
    cmd_new no_bintex toy line [] 64 device
    ≡ reply_err toy [] 64 false (codes "new") none (negsuc 254, device)
unfolding cmd_new extract_args take_errors take_devid put_devid_opt take_archive take_flags take_age
    take_block put_block take_range put_range bound take_fileid take_perms put_perms take_alloc
    put_alloc take_filedata strtoull atoi is_space is_x skip_space digit_value digits_value
    skip_prefix split_sign low_bits drop_colons token first_token strtok_colon select ◌+ℤ◌
new_runs = refl

del_runs :
    cmd_del no_bintex toy line [] 64 device
    ≡ reply_err toy [] 64 false (codes "del") none (negsuc 254, device)
unfolding cmd_del extract_args take_errors take_devid put_devid_opt take_archive take_flags take_age
    take_block put_block take_range put_range bound take_fileid take_perms put_perms take_alloc
    put_alloc take_filedata strtoull atoi is_space is_x skip_space digit_value digits_value
    skip_prefix split_sign low_bits drop_colons token first_token strtok_colon select ◌+ℤ◌
del_runs = refl

abbrev known : Device
known = record device { uid = 26 }

known_selected :
    select toy (extract_args no_bintex line (arglist new_fields)).1.devid known ≡ selected known
unfolding extract_args take_errors take_devid put_devid_opt take_archive take_flags take_age
    take_block put_block take_range put_range bound take_fileid take_perms put_perms take_alloc
    put_alloc take_filedata strtoull atoi is_space is_x skip_space digit_value digits_value
    skip_prefix split_sign low_bits drop_colons token first_token strtok_colon select
known_selected = refl
