-- ===== src/PushPull/Actions/Tests.antt =====
-- push on the small filesystem, with an action that writes one object, and with push_action on devices
-- whose tables are empty.
use otdb.Base.{
  ◌++◌, ◌+◌, ℕ, ◌≡◌, refl, List, [], ◌∷◌, true, false, none, some, arith, append_assoc, length,
  drop, ap, sym,
}
use otdb.Base.Int.{ℤ, pos, ◌-ℤ◌}
use otdb.Text.{codes, snprintf, show_hex, show_dec, show_loop, digit_char}
use otdb.Output.{put_at}
use otdb.Args.{Parsed, Arglist, arglist, argfield_jsonout, argfield_blockid, argfield_deviceidlist}
use otdb.Args.Extract.{
  take_errors, take_devid, take_archive, take_flags, take_age, take_block, take_range, take_fileid,
  take_perms, take_alloc, take_filedata, extract_args, put_block,
}
use otdb.DevList.{Action, iterate, iterator_uids, size_of}
use otdb.Files.Toy.{device, toy}
use otdb.PushPull.{
  testbuffer, pushpull_opening, eat_comma, pushpull_end, pushpull_walk, pushpull, cmd_push,
}
use otdb.PushPull.Actions.{Device, push_action, push_table, push_files, reported, report}
use otdb.PushPull.Whole.{Appends, Holds, pushpull_reply, pushpull-Holds}
use otdb.DevList.Fits.{stored-append}

abbrev no_bintex : List ℕ → List ℕ → ℤ → List ℕ × ℤ
no_bintex text dst max = (dst, pos 0)

-- `push -j`
abbrev line : Parsed
line = record {
  help = false;
  nerrors = 0;
  devid_man = none;
  devid_opt = none;
  archive_man = none;
  jsonout_opt = true;
  soft_opt = false;
  compress_opt = false;
  devidlist_opt = [];
  fileage_opt = none;
  fileblock_opt = none;
  filerange_opt = none;
  fileid_count = 0;
  fileid_ival = pos 0;
  fileperms_man = none;
  filealloc_man = none;
  filedata_man = none;
}

abbrev writes : Arglist → Action
writes a index uid dstmax at mem = (pos 3, put_at at (codes "{},") mem)

-- The arguments of it.
abbrev wants : Arglist
wants = record (arglist (argfield_jsonout + (argfield_blockid + argfield_deviceidlist))) {
  jsonout_flag = true;
}

arguments :
    extract_args no_bintex line
      (arglist (argfield_jsonout + (argfield_blockid + argfield_deviceidlist)))
    ≡ (pos 0, wants)
unfolding extract_args take_errors take_devid take_archive take_flags take_age take_block put_block
    take_range take_fileid take_perms take_alloc take_filedata
arguments = refl

pushpull_runs :
    cmd_push no_bintex toy writes (7 ∷ (26 ∷ [])) true line [] 100 device
    ≡ some (pos 32, codes "{\"cmd\":\"push\", \"fbatch\":[{},{}]}" ++ 0 ∷ [])
unfolding cmd_push extract_args take_errors take_devid take_archive take_flags take_age take_block
    put_block take_range take_fileid take_perms take_alloc take_filedata pushpull pushpull_walk
    pushpull_end pushpull_opening eat_comma testbuffer iterate iterator_uids size_of ◌-ℤ◌ put_at
    snprintf
pushpull_runs = refl

-- Devices whose tables are empty.
abbrev empty_tables : Device
empty_tables = record {
  idmods = λ uid b. some [];
  open_su = λ uid b i. none;
  contents = λ uid fp. [];
}

abbrev silent : List ℕ → List ℕ → ℤ × List ℕ
silent text mem = (pos 0, mem)

abbrev pushes : Arglist → Action
pushes = push_action (λ b. 3) empty_tables silent

abbrev manifest : ℕ → ℕ → List ℕ
manifest count uid =
    codes "{\"devid\":\"" ++ (show_hex uid ++ codes "\", \"block\":3, \"files\":0, \"touched\":0}")

manifest-report : (count uid : ℕ) → manifest count uid ++ codes "," ≡ report true uid 3 0 0
unfolding report show_dec show_loop digit_char
manifest-report count uid =
    ap (λ t. codes "{\"devid\":\"" ++ t)
      (append_assoc (show_hex uid) (codes "\", \"block\":3, \"files\":0, \"touched\":0}")
        (codes ","))

pushes-Appends : Appends manifest (pushes wants)
unfolding push_action push_table push_files reported size_of
pushes-Appends = record {
  tail_of = λ count uid limit pre tail. drop (length (manifest count uid ++ codes ",") + 1) tail;
  appends = λ count uid limit pre tail h. rw (sym (manifest-report count uid)) (
      ap (λ m. (pos (length (manifest count uid ++ codes ",")), m))
        (stored-append pre (manifest count uid ++ codes ",") tail limit h));
}

pushpull-Holds_example :
    Holds manifest
      (pushpull_reply manifest (codes "push") 7 (26 ∷ []))
      (pushpull no_bintex toy (codes "push") pushes (7 ∷ (26 ∷ [])) true line [] 200 device)
unfolding pushpull_opening show_hex show_loop
pushpull-Holds_example =
    pushpull-Holds no_bintex toy (codes "push") pushes manifest (7 ∷ (26 ∷ [])) line [] 200 device
      wants 7 (26 ∷ []) arguments refl refl pushes-Appends (omega arith)
