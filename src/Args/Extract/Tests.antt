-- ===== src/Args/Extract/Tests.antt =====
-- Runs of cmd_extract_args of main/cmds.c, and the theorems at concrete command lines.
use otdb.Base.{ℕ, ◌≡◌, ◌↔◌, refl, List, [], false, none, some, arith, ◌+◌}
use otdb.Base.Int.{ℤ, pos}
use otdb.Text.{
  codes, is_space, is_x, skip_space, digit_value, digits_value, skip_prefix, split_sign, strtoull,
  atoi,
}
use otdb.Args.{
  Parsed, gfb, arglist, low_bits, drop_colons, token, first_token, strtok_colon, argfield_jsonout,
  argfield_deviceidopt, argfield_blockid, argfield_fileid, argfield_fileperms, argfield_filealloc,
  argfield_filerange,
}
use otdb.Args.Extract.{
  take_errors, put_devid_opt, take_devid, take_archive, take_flags, take_age, put_block, take_block,
  bound, put_range, take_range, take_fileid, put_perms, take_perms, put_alloc, take_alloc,
  take_filedata, extract_args,
}
use otdb.Args.Extract.Bounds.{IsSized, extract_args-IsSized}
use otdb.Args.Extract.Complete.{Accepts, extract_args-zero_iff}

-- A decoder that decodes nothing.
abbrev no_bintex : List ℕ → List ℕ → ℤ → List ℕ × ℤ
no_bintex text dst max = (dst, pos 0)

-- `new -i 1A -b gfb 5 66 64`, with a range
abbrev line : Parsed
line = record {
  help = false;
  nerrors = 0;
  devid_man = none;
  devid_opt = some (codes "1A");
  archive_man = none;
  jsonout_opt = false;
  soft_opt = false;
  compress_opt = false;
  devidlist_opt = [];
  fileage_opt = none;
  fileblock_opt = some (codes "gfb");
  filerange_opt = some (codes "2:10");
  fileid_count = 1;
  fileid_ival = pos 5;
  fileperms_man = some (codes "66");
  filealloc_man = some (pos 64);
  filedata_man = none;
}

abbrev wanted : ℕ
wanted =
    argfield_jsonout + argfield_deviceidopt + argfield_blockid + argfield_fileid
    + argfield_fileperms + argfield_filealloc + argfield_filerange

extract_args_runs : extract_args no_bintex line (arglist wanted) ≡ (
  pos 0,
  record (arglist wanted) {
    devid = 26;
    block_id = gfb;
    file_id = 5;
    file_perms = 54;
    range_lo = 2;
    range_hi = 10;
  },
)
unfolding extract_args take_errors take_devid put_devid_opt take_archive take_flags take_age
    take_block put_block take_range put_range bound take_fileid take_perms put_perms take_alloc
    put_alloc take_filedata strtoull atoi is_space is_x skip_space digit_value digits_value
    skip_prefix split_sign low_bits drop_colons token first_token strtok_colon
extract_args_runs = refl

extract_args-IsSized_example : IsSized 0 (extract_args no_bintex line (arglist wanted)).1
extract_args-IsSized_example = extract_args-IsSized no_bintex 0 line (arglist wanted) (omega arith)

extract_args-zero_iff_example :
    ((extract_args no_bintex line (arglist wanted)).0 ≡ pos 0) ↔ Accepts line (arglist wanted)
extract_args-zero_iff_example = extract_args-zero_iff no_bintex line (arglist wanted)
