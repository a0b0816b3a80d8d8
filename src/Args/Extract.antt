-- ===== src/Args/Extract.antt =====
-- cmd_extract_args of main/cmds.c, stage by stage in its order.
pub mod Bounds
pub mod Complete
pub mod Ranges
mod Tests
use otdb.Base.{
  ℕ, ◌%◌, ◌^◌, ◌<◌, List, [], ◌∷◌, Bool, true, false, ◌&&◌, ◌||◌, not, Option, none, some, ltb,
  ◌==◌, if◌then◌else◌, take,
}
use otdb.Base.Int.{ℤ, pos, negsuc}
use otdb.Base.Bytes.{bytes_eq}
use otdb.Text.{codes, strtoull, atoi}
use otdb.Args.{
  Arglist, Parsed, BlockId, gfb, iss, isf, Outcome, cont, stop, ◌>>=◌, has, low_bits, strtok_colon,
  argfield_deviceid, argfield_deviceidopt, argfield_deviceidlist, argfield_archive,
  argfield_compress, argfield_jsonout, argfield_softmode, argfield_agems, argfield_blockid,
  argfield_fileid, argfield_fileperms, argfield_filealloc, argfield_filerange, argfield_filedata,
}

-- Help and the parser's errors end the command.
unfoldable pub take_errors : Parsed → Arglist → Outcome
take_errors p a =
    if p.help then stop (negsuc 0) a else if ltb 0 p.nerrors then stop (negsuc 2) a else cont a

unfoldable pub put_devid : Arglist → Option (List ℕ) → Outcome
put_devid a none = stop (negsuc 3) a
put_devid a (some text) = cont (record a { devid = strtoull text 16 })

unfoldable pub put_devid_opt : Arglist → Option (List ℕ) → Outcome
put_devid_opt a none = cont (record a { devid = 0 })
put_devid_opt a (some text) = cont (record a { devid = strtoull text 16 })

unfoldable pub take_devid : Parsed → Arglist → Outcome
take_devid p a =
    if has a argfield_deviceid
    then put_devid a p.devid_man
    else if has a argfield_deviceidopt
    then put_devid_opt a p.devid_opt
    else cont a

unfoldable pub put_archive : Arglist → Option (List ℕ) → Outcome
put_archive a none = stop (negsuc 4) a
put_archive a (some path) = cont (record a { archive_path = path })

unfoldable pub take_archive : Parsed → Arglist → Outcome
take_archive p a = if has a argfield_archive then put_archive a p.archive_man else cont a

-- The three flags and the list of device IDs.
unfoldable pub take_flags : Parsed → Arglist → Outcome
take_flags p a = cont (record a {
  jsonout_flag = if has a argfield_jsonout then p.jsonout_opt else a.jsonout_flag;
  soft_flag = if has a argfield_softmode then p.soft_opt else a.soft_flag;
  compress_flag = if has a argfield_compress then p.compress_opt else a.compress_flag;
  devid_strlist = if has a argfield_deviceidlist then p.devidlist_opt else a.devid_strlist;
})

abbrev or_zero : Option ℤ → ℤ
or_zero none = pos 0
or_zero (some n) = n

unfoldable pub take_age : Parsed → Arglist → Outcome
take_age p a =
    if has a argfield_agems then cont (record a { age_ms = or_zero p.fileage_opt }) else cont a

-- strncmp compares the first three bytes.
unfoldable pub put_block : Arglist → Option (List ℕ) → Outcome
put_block a none = cont (record a { block_id = isf })
put_block a (some text) =
    if bytes_eq (take 3 text) (codes "isf")
    then cont (record a { block_id = isf })
    else if bytes_eq (take 3 text) (codes "iss")
    then cont (record a { block_id = iss })
    else if bytes_eq (take 3 text) (codes "gfb")
    then cont (record a { block_id = gfb })
    else stop (negsuc 7) (record a { block_id = isf })

unfoldable pub take_block : Parsed → Arglist → Outcome
take_block p a = if has a argfield_blockid then put_block a p.fileblock_opt else cont a

-- `(uint16_t)atoi(token)`, or the default.
unfoldable pub bound : ℕ → Option (List ℕ) → ℕ
bound default none = default
bound default (some text) = low_bits 16 (atoi text)

unfoldable pub put_range : Arglist → Option (List ℕ) → Outcome
put_range a none = cont (record a { range_lo = 0; range_hi = 65535 })
put_range a (some text) =
    let (start, ctx) = strtok_colon text in
    let (end, ctx') = strtok_colon ctx in
    cont (record a { range_lo = bound 0 start; range_hi = bound 65535 end })

unfoldable pub take_range : Parsed → Arglist → Outcome
take_range p a = if has a argfield_filerange then put_range a p.filerange_opt else cont a

unfoldable pub take_fileid : Parsed → Arglist → Outcome
take_fileid p a =
    if has a argfield_fileid
    then (if ltb 0 p.fileid_count
        then cont (record a { file_id = low_bits 8 p.fileid_ival })
        else stop (negsuc 8) a)
    else cont a

unfoldable pub put_perms : Arglist → Option (List ℕ) → Outcome
put_perms a none = stop (negsuc 9) a
put_perms a (some text) = cont (record a { file_perms = strtoull text 8 % 64 })

unfoldable pub take_perms : Parsed → Arglist → Outcome
take_perms p a = if has a argfield_fileperms then put_perms a p.fileperms_man else cont a

-- The source stores the file ID again here, and leaves `file_alloc` alone.
unfoldable pub put_alloc : Arglist → ℤ → Option ℤ → Outcome
put_alloc a fileid none = stop (negsuc 10) a
put_alloc a fileid (some alloc) = cont (record a { file_id = low_bits 8 fileid })

unfoldable pub take_alloc : Parsed → Arglist → Outcome
take_alloc p a =
    if has a argfield_filealloc then put_alloc a p.fileid_ival p.filealloc_man else cont a

-- bintex_ss(text, dst, max): the bytes of `dst` afterwards, and its return value.
module _ (bintex_ss : List ℕ → List ℕ → ℤ → List ℕ × ℤ) where
  unfoldable pub put_filedata : Arglist → Option (List ℕ) → Option (List ℕ) → Outcome
  put_filedata a none dst = stop (negsuc 11) a
  put_filedata a (some text) none = stop (negsuc 11) a
  put_filedata a (some text) (some dst) =
      let (out, n) = bintex_ss text dst a.filedata_size in
      cont (record a { filedata = some out; filedata_size = n })

  unfoldable pub take_filedata : Parsed → Arglist → Outcome
  take_filedata p a =
      if has a argfield_filedata then put_filedata a p.filedata_man a.filedata else cont a

  unfoldable pub extract : Parsed → Arglist → Outcome
  extract p a0 = do
    a1 ← take_errors p a0
    a2 ← take_devid p a1
    a3 ← take_archive p a2
    a4 ← take_flags p a3
    a5 ← take_age p a4
    a6 ← take_block p a5
    a7 ← take_range p a6
    a8 ← take_fileid p a7
    a9 ← take_perms p a8
    a10 ← take_alloc p a9
    take_filedata p a10

abbrev pub returned : Outcome → ℤ × Arglist
returned (cont a) = (pos 0, a)
returned (stop rc a) = (rc, a)

-- The return value of cmd_extract_args, and the argument list that it leaves.
unfoldable pub extract_args : (List ℕ → List ℕ → ℤ → List ℕ × ℤ) → Parsed → Arglist → ℤ × Arglist
unfolding extract
extract_args bintex_ss p a = returned (extract bintex_ss p a)
