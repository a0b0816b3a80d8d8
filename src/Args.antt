-- ===== src/Args.antt =====
-- The argument list of a command: main/cmds.h (ARGFIELD_*, cmd_arglist_t) and cmd_extract_args of
-- main/cmds.c. What hbutils_parseargv and arg_parse make of the command line is the record Parsed;
-- bintex_ss, which decodes file data, is a parameter.
pub mod Extract
use Prim.Native.Nat.{bit_and, bit_or}
use otdb.Base.{
  ℕ, zero, suc, ◌+◌, ◌-◌, ◌%◌, ◌^◌, ◌<◌, List, [], ◌∷◌, Bool, true, false, ◌&&◌, ◌||◌, not, Option,
  none, some, ltb, ◌==◌, if◌then◌else◌, take,
}
use otdb.Base.Int.{ℤ, pos, negsuc}
use otdb.Text.{codes, strtoull, atoi}

abbrev pub argfield_deviceid : ℕ
argfield_deviceid = 2 ^ 0

abbrev pub argfield_deviceidopt : ℕ
argfield_deviceidopt = 2 ^ 1

abbrev pub argfield_deviceidlist : ℕ
argfield_deviceidlist = 2 ^ 2

abbrev pub argfield_archive : ℕ
argfield_archive = 2 ^ 3

abbrev pub argfield_compress : ℕ
argfield_compress = 2 ^ 4

abbrev pub argfield_jsonout : ℕ
argfield_jsonout = 2 ^ 5

abbrev pub argfield_softmode : ℕ
argfield_softmode = 2 ^ 6

abbrev pub argfield_agems : ℕ
argfield_agems = 2 ^ 7

abbrev pub argfield_blockid : ℕ
argfield_blockid = 2 ^ 8

abbrev pub argfield_fileid : ℕ
argfield_fileid = 2 ^ 9

abbrev pub argfield_fileperms : ℕ
argfield_fileperms = 2 ^ 10

abbrev pub argfield_filealloc : ℕ
argfield_filealloc = 2 ^ 11

abbrev pub argfield_filerange : ℕ
argfield_filerange = 2 ^ 12

abbrev pub argfield_filedata : ℕ
argfield_filedata = 2 ^ 13

-- VL_GFB_BLOCKID, VL_ISS_BLOCKID and VL_ISF_BLOCKID of the filesystem library.
pub data BlockId : Type 0 where
  gfb iss isf : BlockId

-- `cmd_arglist_t`. `filedata` is `none` for the null pointer.
pub record Arglist : Type 0 where
  pub fields : ℕ
  pub archive_path : List ℕ
  pub filedata : Option (List ℕ)
  pub filedata_size : ℤ
  pub devid : ℕ
  pub devid_strlist : List (List ℕ)
  pub age_ms : ℤ
  pub jsonout_flag : Bool
  pub compress_flag : Bool
  pub soft_flag : Bool
  pub block_id : BlockId
  pub file_id : ℕ
  pub file_perms : ℕ
  pub file_alloc : ℕ
  pub range_lo : ℕ
  pub range_hi : ℕ

-- A designated initialiser with the fields alone: all else is zero. (The zero of `block_id` is no
-- block; each command that reads it asks for ARGFIELD_BLOCKID, which sets it.)
abbrev pub arglist : ℕ → Arglist
arglist fields = record {
  fields = fields;
  archive_path = [];
  filedata = none;
  filedata_size = pos 0;
  devid = 0;
  devid_strlist = [];
  age_ms = pos 0;
  jsonout_flag = false;
  compress_flag = false;
  soft_flag = false;
  block_id = isf;
  file_id = 0;
  file_perms = 0;
  file_alloc = 0;
  range_lo = 0;
  range_hi = 0;
}

-- The argument structs after arg_parse: an option is `none` where its count is 0. The integer slot
-- of fileid_man is read without its count in one place, so both are kept.
pub record Parsed : Type 0 where
  pub help : Bool
  pub nerrors : ℕ
  pub devid_man : Option (List ℕ)
  pub devid_opt : Option (List ℕ)
  pub archive_man : Option (List ℕ)
  pub jsonout_opt : Bool
  pub soft_opt : Bool
  pub compress_opt : Bool
  pub devidlist_opt : List (List ℕ)
  pub fileage_opt : Option ℤ
  pub fileblock_opt : Option (List ℕ)
  pub filerange_opt : Option (List ℕ)
  pub fileid_count : ℕ
  pub fileid_ival : ℤ
  pub fileperms_man : Option (List ℕ)
  pub filealloc_man : Option ℤ
  pub filedata_man : Option (List ℕ)

-- The low `k` bits of an int in two's complement.
unfoldable pub low_bits : ℕ → ℤ → ℕ
low_bits k (pos n) = n % 2 ^ k
low_bits k (negsuc n) = 2 ^ k - 1 - n % 2 ^ k

-- `fields & flag`, as a test
abbrev pub asks : ℕ → ℕ → Bool
asks fields flag = not (bit_and fields flag == 0)

abbrev pub has : Arglist → ℕ → Bool
has a flag = asks a.fields flag

-- `stop` is the jump to the end with the error that is returned.
pub data Outcome : Type 0 where
  cont : Arglist → Outcome
  stop : ℤ → Arglist → Outcome

infixl 5 ◌>>=◌
abbrev pub ◌>>=◌ : Outcome → (Arglist → Outcome) → Outcome
cont a >>= f = f a
stop rc a >>= f = stop rc a

-- strtok_r with the delimiter ":": the token, and what follows it.
unfoldable pub drop_colons : List ℕ → List ℕ
drop_colons [] = []
drop_colons (c ∷ s) = if c == b':' then drop_colons s else c ∷ s

unfoldable pub token : List ℕ → List ℕ × List ℕ
token [] = ([], [])
token (c ∷ s) = let (t, rest) = token s in if c == b':' then ([], s) else (c ∷ t, rest)

unfoldable pub first_token : List ℕ → Option (List ℕ) × List ℕ
first_token [] = (none, [])
first_token (c ∷ s) = (some (token (c ∷ s)).0, (token (c ∷ s)).1)

unfoldable pub strtok_colon : List ℕ → Option (List ℕ) × List ℕ
strtok_colon s = first_token (drop_colons s)
