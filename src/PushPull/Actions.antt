-- ===== src/PushPull/Actions.antt =====
-- The actions of push and pull on one device, in main/cmd_pushpull.c. The device manager answers a line by
-- a function, and the files of a device are looked up by its number, in place of the selected
-- filesystem.
mod Tests
use Prim.Native.Nat.{bit_and}
use otdb.Base.{
  ℕ, zero, suc, ◌+◌, ◌-◌, ◌/◌, ◌%◌, List, [], ◌∷◌, ◌++◌, Bool, true, false, Option, none, some,
  length, take, drop, ◌==◌, if◌then◌else◌,
}
use otdb.Base.Int.{ℤ, pos, negsuc, ◌-ℤ◌, ltb_ℤ}
use otdb.Text.{codes, show_dec, show_hex, snprintf}
use otdb.Hex.{hexnwrite, hexnread_mem}
use otdb.Output.{put_at}
use otdb.Args.{Arglist, BlockId, gfb, iss, isf, Parsed}
use otdb.DevLink.{AuthLevel, guest, user, minauth_get, dm_xnprintf}
use otdb.DevList.{Action, size_of}
use otdb.Otfs.{Otfs, File}
use otdb.JsonTools.Elements.{c_text}
use otdb.PushPull.{cmd_push}

-- The table of a device: the idmod of each file that is used, or `none` where the device has no base. A file
-- that vl_open opens with VL_ACCESS_SU, a file that it opens with VL_ACCESS_R, and the bytes that
-- vl_memptr points to.
pub record Device : Type 0 where
  pub idmods : ℕ → BlockId → Option (List ℕ)
  pub open_su : ℕ → BlockId → ℕ → Option File
  pub contents : ℕ → File → List ℕ

abbrev Devmgr : Type 0
Devmgr = List ℕ → List ℕ → ℤ × List ℕ

-- sub_resolveblock: the name of the block.
abbrev block_name : BlockId → List ℕ
block_name gfb = codes "gfb"
block_name iss = codes "iss"
block_name isf = codes "isf"

unfoldable is_positive : ℤ → Bool
is_positive n = ltb_ℤ (pos 0) n

-- dm_xnprintf with its `dst` at an offset.
unfoldable send_at : Devmgr → ℕ → ℤ → AuthLevel → ℕ → List ℕ → List ℕ → ℤ × List ℕ
send_at devmgr at dstmax auth uid cmd mem =
    let (n, back) = dm_xnprintf devmgr (drop at mem) (size_of dstmax) auth uid cmd in
    (n, take at mem ++ back)

-- The line that writes a file: its digits stop at 512.
unfoldable push_line : BlockId → ℕ → List ℕ → List ℕ
push_line b file_id bytes =
    codes "file w -b "
    ++ (block_name b
        ++ (codes " "
            ++ (show_dec file_id ++ (codes " [" ++ (c_text (hexnwrite bytes 512).0 ++ codes "]")))))

unfoldable pull_line : BlockId → ℕ → List ℕ
pull_line b i = codes "file r -b " ++ (block_name b ++ (codes " " ++ show_dec i))

-- The text of the manifest.
unfoldable report : Bool → ℕ → ℕ → ℕ → ℕ → List ℕ
report true uid block files touched =
    codes "{\"devid\":\""
    ++ (show_hex uid
        ++ (codes "\", \"block\":"
            ++ (show_dec block
                ++ (codes ", \"files\":"
                    ++ (show_dec files
                        ++ (codes ", \"touched\":" ++ (show_dec touched ++ codes "},")))))))
report false uid block files touched =
    codes "devid:"
    ++ (show_hex uid
        ++ (codes ", block:"
            ++ (show_dec block
                ++ (codes ", files:"
                    ++ (show_dec files
                        ++ (codes ", touched:" ++ (show_dec touched ++ codes "\n")))))))

unfoldable reported : Bool → ℕ → ℕ → ℕ → ℤ → ℕ → ℕ × List ℕ → ℤ × List ℕ
reported json uid block files dstmax at (touched, mem) =
    let text = report json uid block files touched in
    (pos (length text), put_at at (snprintf (size_of dstmax) text) mem)

module _ (dev : Device) (devmgr : Devmgr) (uid : ℕ) (b : BlockId) (dstmax : ℤ) (at : ℕ) where
  -- A file that opens: whether it was touched, and the memory.
  unfoldable push_opened : ℕ → Option File → List ℕ → ℕ × List ℕ
  push_opened idmod none mem = (0, mem)
  push_opened idmod (some fp) mem =
      let auth = if bit_and (idmod / 256) 0x02 == 0 then user else guest in
      let bytes = take fp.length (dev.contents uid fp) in
      let (wrbytes, mem1) =
        send_at devmgr at dstmax auth uid (push_line b (idmod % 256) bytes) mem in
      (if is_positive wrbytes then 1 else 0, mem1)

  -- No file that only root may write.
  unfoldable push_file : ℕ → List ℕ → ℕ × List ℕ
  push_file idmod mem =
      if bit_and (idmod / 256) 0x12 == 0
      then (0, mem)
      else push_opened idmod (dev.open_su uid b (idmod % 256)) mem

  unfoldable push_files : List ℕ → List ℕ → ℕ × List ℕ
  push_files [] mem = (0, mem)
  push_files (idmod ∷ idmods) mem =
      let (n, mem1) = push_file idmod mem in let (m, mem2) = push_files idmods mem1 in (n + m, mem2)

-- push_action, with the numbers of the blocks.
unfoldable push_table :
    (BlockId → ℕ) → Device → Devmgr → Arglist → ℕ → ℤ → ℕ → Option (List ℕ) → List ℕ → ℤ × List ℕ
push_table block_code dev devmgr a uid dstmax at none mem = (negsuc 0, mem)
push_table block_code dev devmgr a uid dstmax at (some idmods) mem =
    reported a.jsonout_flag uid (block_code a.block_id) (length idmods) dstmax at
      (push_files dev devmgr uid a.block_id dstmax at idmods mem)

unfoldable push_action : (BlockId → ℕ) → Device → Devmgr → Arglist → Action
push_action block_code dev devmgr a index uid dstmax at mem =
    push_table block_code dev devmgr a uid dstmax at (dev.idmods uid a.block_id) mem

-- What pull changes beside: the filesystem. vl_open with VL_ACCESS_R, and vl_store with vl_close.
pub record PullStore : Type 1 where
  pub Db : Type 0
  pub open_r : ℕ → BlockId → ℕ → Db → Option File
  pub store : File → ℤ → List ℕ → Db → Db
  pub close : File → Db → Db

module _ (st : PullStore) (access_mask : ℕ) (devmgr : Devmgr) (uid : ℕ) (b : BlockId) (dstmax : ℤ)
    (at : ℕ) where
  -- Whether the loop goes on, the files touched, the memory, and the filesystem.
  abbrev Pulled : Type 0
  Pulled = Bool × (ℕ × (List ℕ × st.Db))

  -- The decoded answer, without the first nine bytes.
  unfoldable pull_answer : File → ℤ × List ℕ → st.Db → Pulled
  pull_answer fp (wrbytes, mem) db =
      let (decoded, end) = hexnread_mem mem at at (length mem) in
      let n = end - at in
      if is_positive wrbytes
      then (
        true,
        (1, (decoded, st.close fp (st.store fp (pos n -ℤ pos 9) (drop (at + 9) decoded) db))),
      )
      else (false, (0, (mem, st.close fp db)))

  unfoldable pull_opened : ℕ → Option File → List ℕ → st.Db → Pulled
  pull_opened i none mem db = (true, (0, (mem, db)))
  pull_opened i (some fp) mem db =
      pull_answer fp
        (send_at devmgr at dstmax (minauth_get (fp.idmod / 256) access_mask) uid (pull_line b i)
          mem)
        db

  -- The loop over the files from `i` on: it ends where the device gives no answer.
  unfoldable pull_files : ℕ → ℕ → List ℕ → st.Db → ℕ × (List ℕ × st.Db)
  pull_files zero i mem db = (0, (mem, db))
  pull_files (suc left) i mem db =
      let (more, (n, (mem1, db1))) = pull_opened i (st.open_r uid b i db) mem db in
      let (m, (mem2, db2)) = pull_files left (i + 1) mem1 db1 in
      if more then (n + m, (mem2, db2)) else (n, (mem1, db1))

unfoldable pull_action :
    (BlockId → ℕ)
    → (st : PullStore) → ℕ
    → Devmgr
    → Arglist
    → Option ℕ
    → ℕ
    → ℤ
    → ℕ
    → List ℕ
    → st.Db
    → (ℤ × List ℕ) × st.Db
pull_action block_code st access_mask devmgr a none uid dstmax at mem db = ((negsuc 0, mem), db)
pull_action block_code st access_mask devmgr a (some num_files) uid dstmax at mem db =
    let (touched, (mem1, db1)) =
      pull_files st access_mask devmgr uid a.block_id dstmax at num_files 0 mem db in
    (reported a.jsonout_flag uid (block_code a.block_id) num_files dstmax at (touched, mem1), db1)

-- cmd_push, with the action that it is given.
unfoldable push :
    (List ℕ → List ℕ → ℤ → List ℕ × ℤ)
    → (fs : Otfs) → Device
    → Devmgr
    → List ℕ
    → Bool
    → Parsed
    → List ℕ
    → ℕ
    → fs.Db
    → Option (ℤ × List ℕ)
push bintex_ss fs dev devmgr = cmd_push bintex_ss fs (push_action fs.block_code dev devmgr)
