-- ===== src/DevList.antt =====
-- The walk over devices of main/iterator.c and the command dev-ls of main/cmd_devls.c.
pub mod Fits
pub mod Whole
mod Tests
use otdb.Base.{
  ℕ, zero, suc, ◌+◌, ◌-◌, ◌^◌, List, [], ◌∷◌, ◌++◌, Bool, true, false, not, Option, none, some,
  length, ◌==◌, if◌then◌else◌, ◌&&◌,
}
use otdb.Base.Int.{ℤ, pos, negsuc, ◌+ℤ◌, ◌-ℤ◌, pos_part, neg_part, ltb_ℤ, sub_ℕ}
use otdb.Text.{codes, show_dec, show_hex, show_int, strtoull, snprintf}
use otdb.Output.{put_at, sub_size}
use otdb.Args.{Arglist, arglist, Parsed, argfield_jsonout, argfield_deviceidlist}
use otdb.Args.Extract.{extract_args}
use otdb.Otfs.{Otfs}
use otdb.Files.{is_zero}

-- The devices that sub_nextdevice gives, call after call: those of the list that otfs_setfs finds.
-- They are identified by their number.
module _ (fs : Otfs) where
  unfoldable pub next_devices : List (List ℕ) → fs.Db → List ℕ × fs.Db
  next_devices [] db = ([], db)
  next_devices (s ∷ strlist) db =
      let uid = strtoull s 16 in
      let (devtest, db1) = fs.setfs uid db in
      let (rest, db2) = next_devices strlist db1 in
      (if is_zero devtest then uid ∷ rest else rest, db2)

-- An int as a size_t.
unfoldable pub size_of : ℤ → ℕ
size_of (pos n) = n
size_of (negsuc n) = 2 ^ 64 - 1 - n

-- An action on a device: from its count, the device, `dstlimit`, and the memory with the offset of
-- `dst`, to the new bytes and the memory.
abbrev pub Action : Type 0
Action = ℕ → ℕ → ℤ → ℕ → List ℕ → ℤ × List ℕ

-- The loop of iterator_uids over the devices that are left.
unfoldable pub iterate : Action → List ℕ → ℕ → ℤ → ℕ → ℕ → List ℕ → ℤ × List ℕ
iterate action [] count limit at out mem = (pos out, mem)
iterate action (device ∷ devices) count limit at out mem =
    let (newbytes, mem1) = action (count + 1) device limit at mem in
    let n = pos_part newbytes in
    let rest = iterate action devices (count + 1) (limit -ℤ newbytes) (at + n) (out + n) mem1 in
    if ltb_ℤ newbytes (pos 0)
    then (negsuc 2, mem1)
    else (if ltb_ℤ limit (pos 0) then (negsuc 3, mem1) else rest)

-- iterator_uids: `all` are the devices that otfs_iterator_start and otfs_iterator_next give.
unfoldable pub iterator_uids :
    (fs : Otfs) → Action → List ℕ → Arglist → ℤ → ℕ → List ℕ → fs.Db → ℤ × List ℕ
iterator_uids fs action all arglist dstmax at mem db =
    let (listed, db1) = next_devices fs arglist.devid_strlist db in
    iterate action (if length arglist.devid_strlist == 0 then all else listed) 0 dstmax at 0 mem

unfoldable pub device_text : Bool → ℕ → ℕ → List ℕ
device_text true index uid = codes "\"" ++ (show_hex uid ++ codes "\",")
device_text false index uid = show_dec index ++ (codes ". " ++ (show_hex uid ++ codes "\n"))

unfoldable pub devls_action : Bool → Action
devls_action json index uid dstmax at mem =
    let text = device_text json index uid in
    (pos (length text), put_at at (snprintf (size_of dstmax) text) mem)

unfoldable pub devls_opening : List ℕ
devls_opening = codes "{\"cmd\":\"dev-ls\", \"idlist\":["

-- From the end of the walk to cmd_devls_END: `at` is `dstcurs - dst`.
unfoldable pub devls_close : Bool → ℕ → ℤ × List ℕ → ℤ × List ℕ
devls_close json at (negsuc n, mem) = (negsuc n, mem)
devls_close json at (pos rc, mem) =
    let curs = at + (rc - 1) in
    if json then (pos (curs + 2), put_at curs (codes "]}" ++ 0 ∷ []) mem) else (pos curs, mem)

unfoldable pub devls_walk : (fs : Otfs) → List ℕ → Arglist → ℕ → List ℕ → fs.Db → ℤ × List ℕ
devls_walk fs all a dstmax mem db =
    let limit = sub_ℕ dstmax 1 in
    let limit_json = limit -ℤ pos 2 -ℤ pos (length devls_opening) in
    let opened = put_at 0 (snprintf (size_of (limit -ℤ pos 2)) devls_opening) mem in
    if a.jsonout_flag
    then (if ltb_ℤ limit_json (pos 0)
        then (negsuc 3, opened)
        else devls_close true (length devls_opening) (
            iterator_uids fs (devls_action true) all a limit_json (length devls_opening) opened db))
    else devls_close false 0 (iterator_uids fs (devls_action false) all a limit 0 mem db)

unfoldable pub devls_err : List ℕ → ℤ → List ℕ
devls_err cmdname rc =
    codes "{\"type\":\"otdb\", \"cmd\":\""
    ++ (cmdname ++ (codes "\", \"err\":" ++ (show_int rc ++ codes "}")))

-- cmd_devls_END
unfoldable pub devls_end : Bool → ℕ → ℤ × List ℕ → ℤ × List ℕ
devls_end json dstmax (rc, mem) =
    let text = devls_err (codes "dev-ls") rc in
    if ltb_ℤ rc (pos 0) && json
    then (pos (length text), put_at 0 (snprintf (sub_size dstmax 1) text) mem)
    else (rc, mem)

-- `is_open` is that both the template and the database are there.
unfoldable pub cmd_devls :
    (List ℕ → List ℕ → ℤ → List ℕ × ℤ)
    → (fs : Otfs) → List ℕ
    → Bool
    → Parsed
    → List ℕ
    → ℕ
    → fs.Db
    → ℤ × List ℕ
cmd_devls bintex_ss fs all is_open p mem dstmax db =
    let (rc, a) = extract_args bintex_ss p (arglist (argfield_jsonout + argfield_deviceidlist)) in
    if is_open && not (dstmax == 0)
    then devls_end a.jsonout_flag dstmax
        (if is_zero rc then devls_walk fs all a dstmax mem db else (negsuc 1, mem))
    else (if is_open then pos 0 else negsuc 0, mem)
