-- ===== src/PushPull.antt =====
-- The commands push and pull of main/cmd_pushpull.c, over an action on each device: sub_pushpull.
pub mod Actions
pub mod Whole
use otdb.Base.{
  ℕ, ◌+◌, ◌-◌, List, [], ◌∷◌, ◌++◌, Bool, true, false, not, Option, none, some, length, leb, ◌==◌,
  if◌then◌else◌, ◌&&◌,
}
use otdb.Base.Int.{ℤ, pos, negsuc, ◌-ℤ◌, ltb_ℤ, sub_ℕ}
use otdb.Text.{codes, snprintf}
use otdb.Output.{put_at, jsonout_err}
use otdb.Args.{Arglist, arglist, Parsed, argfield_jsonout, argfield_blockid, argfield_deviceidlist}
use otdb.Args.Extract.{extract_args}
use otdb.Otfs.{Otfs}
use otdb.Files.{is_zero}
use otdb.DevList.{Action, size_of, iterator_uids}

unfoldable pub testbuffer : ℤ → ℤ → ℤ
testbuffer segbytes dstlimit =
    if ltb_ℤ dstlimit (pos 0)
    then negsuc 3
    else (if ltb_ℤ segbytes (pos 0) then negsuc 2 else pos 0)

-- {"cmd":"%s", "fbatch":[
unfoldable pub pushpull_opening : List ℕ → List ℕ
pushpull_opening cmdname = codes "{\"cmd\":\"" ++ (cmdname ++ codes "\", \"fbatch\":[")

-- The bytes between `dst` and `dstcurs`, `rc`, and the memory.
abbrev pub Progress : Type 0
Progress = ℕ × (ℤ × List ℕ)

unfoldable pub eat_comma : ℕ → ℤ × List ℕ → Progress
eat_comma at (negsuc n, mem) = (at, (negsuc n, mem))
eat_comma at (pos rc, mem) = (at + (rc - 1), (pos rc, mem))

-- sub_pushpull_END: `none` is where the sprintf of "]}" would write past `dstmax`.
unfoldable pub pushpull_end : List ℕ → ℕ → Bool → Progress → Option (ℤ × List ℕ)
pushpull_end cmdname dstmax false (at, (rc, mem)) = some (rc, mem)
pushpull_end cmdname dstmax true (at, (negsuc n, mem)) =
    let (mem1, rc) = jsonout_err mem dstmax true (negsuc n) cmdname in some (rc, mem1)
pushpull_end cmdname dstmax true (at, (pos rc, mem)) =
    if leb (at + 3) dstmax then some (pos (at + 2), put_at at (codes "]}" ++ 0 ∷ []) mem) else none

-- From the preliminary writeout to sub_pushpull_END, with `all` the devices of the database.
unfoldable pub pushpull_walk :
    (fs : Otfs) → List ℕ → Action → List ℕ → Arglist → ℕ → List ℕ → fs.Db → Progress
pushpull_walk fs cmdname action all a dstmax mem db =
    let text = pushpull_opening cmdname in
    let limit = sub_ℕ dstmax 1 in
    let limit_json = limit -ℤ pos 2 -ℤ pos (length text) in
    let opened = put_at 0 (snprintf (size_of (limit -ℤ pos 2)) text) mem in
    let rc = testbuffer (pos (length text)) limit_json in
    if a.jsonout_flag
    then (if ltb_ℤ rc (pos 0)
        then (length text, (rc, opened))
        else eat_comma (length text)
            (iterator_uids fs action all a limit_json (length text) opened db))
    else eat_comma 0 (iterator_uids fs action all a limit 0 mem db)

-- `is_open` is that both the template and the database are there. The action depends on what
-- cmd_extract_args finds.
unfoldable pub pushpull :
    (List ℕ → List ℕ → ℤ → List ℕ × ℤ)
    → (fs : Otfs) → List ℕ
    → (Arglist → Action)
    → List ℕ
    → Bool
    → Parsed
    → List ℕ
    → ℕ
    → fs.Db
    → Option (ℤ × List ℕ)
pushpull bintex_ss fs cmdname action all is_open p mem dstmax db =
    let (rc, a) =
      extract_args bintex_ss p
        (arglist (argfield_jsonout + (argfield_blockid + argfield_deviceidlist))) in
    if is_open && not (dstmax == 0)
    then pushpull_end cmdname dstmax a.jsonout_flag (
        if is_zero rc
        then pushpull_walk fs cmdname (action a) all a dstmax mem db
        else (0, (negsuc 1, mem)))
    else some (if is_open then pos 0 else negsuc 0, mem)

unfoldable pub cmd_push :
    (List ℕ → List ℕ → ℤ → List ℕ × ℤ)
    → (fs : Otfs) → (Arglist → Action)
    → List ℕ
    → Bool
    → Parsed
    → List ℕ
    → ℕ
    → fs.Db
    → Option (ℤ × List ℕ)
cmd_push bintex_ss fs push_action = pushpull bintex_ss fs (codes "push") push_action

unfoldable pub cmd_pull :
    (List ℕ → List ℕ → ℤ → List ℕ × ℤ)
    → (fs : Otfs) → (Arglist → Action)
    → List ℕ
    → Bool
    → Parsed
    → List ℕ
    → ℕ
    → fs.Db
    → Option (ℤ × List ℕ)
cmd_pull bintex_ss fs pull_action = pushpull bintex_ss fs (codes "pull") pull_action
