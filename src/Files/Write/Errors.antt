-- ===== src/Files/Write/Errors.antt =====
-- The errors of cmd_write and cmd_pub in main/cmd_filecmds.c, and the device's part in cmd_write.
use otdb.Base.{
  ℕ, zero, suc, ◌-◌, ◌^◌, ◌<◌, ◌≤◌, ◌≡◌, ◌↔◌, refl, sym, List, Bool, true, false, Option, none,
  some, ◌⊎◌, inl, inr, if◌then◌else◌, ◌&&◌, min, ltb, leb, arith, Bool-cases, length, take,
  length-take,
}
use otdb.Base.Int.{ℤ, pos, ◌-ℤ◌}
use otdb.Text.{codes}
use otdb.Args.{Arglist}
use otdb.Otfs.{Otfs, File, access_w}
use otdb.Output.{jsonout_err}
use otdb.Files.{selected, select, Reply, reply_err}
use otdb.Files.Write.{
  write_selected, data_of, clip, Attempt, wrote, refused, write_range, attempt, sync, sync_line,
  hexbuf_of, write_reply, write_finish, pub_finish,
}
use otdb.DevList.{size_of}
use otdb.Hex.{hexwrite}
use otdb.Hex.Roundtrip.{length-hexwrite}

-- An error `e` of vl_getheader_vaddr is reported as 512 - e, which is not negative for any `e` up to
-- 512, and the filesystem is as otfs_setfs left it.
pub attempt-header_error :
    (fs : Otfs) (a : Arglist) (e header : ℕ) (db db1 : fs.Db)
    → 0 < e
    → e ≤ 512
    → select fs a.devid db ≡ selected db1
    → fs.getheader a.block_id a.file_id access_w db1 ≡ (pos e, header)
    → attempt fs (pos 0) a db ≡ refused (pos (512 - e)) db1
unfolding attempt write_selected write_range ◌-ℤ◌
attempt-header_error fs a zero header db db1 p l s h = absurd (omega arith)
attempt-header_error fs a (suc e) header db db1 p l s h = rw (s, h) (ground arith)

-- The span as a size_t.
size_of-clip :
    (n lo hi : ℕ)
    → lo < 2 ^ 31
    → ((lo ≤ hi) → size_of (clip (pos n) lo hi) ≡ min n (hi - lo))
      × ((hi < lo) → 256 < size_of (clip (pos n) lo hi))
unfolding clip size_of
size_of-clip n lo hi small = (λ h. ground arith, λ h. ground arith)

none_iff {ℓ} : {A : Type ℓ} (b : Bool) (x : A) → ((if b then some x else none) ≡ none) ↔ (b ≡ false)
none_iff true x = (λ h. absurd (ground arith), λ h. absurd (ground arith))
none_iff false x = (λ h. refl, λ h. refl)

-- The digits of `n` bytes and their terminator are 2n + 1 bytes.
hexbuf_of-none_iff :
    (bytes : List ℕ) (n : ℕ) → (hexbuf_of bytes n ≡ none) ↔ ((length bytes < n) ⊎ (256 < n))
unfolding hexbuf_of
hexbuf_of-none_iff bytes n =
    let out = (hexwrite (take n bytes)).0 in
    let b = leb n (length bytes) && leb (length out) 513 in
    let tests = none_iff b out in
    let size = length-hexwrite (take n bytes) in
    let read = length-take n bytes in
    (
      λ h. ground (arith, tests.0 h, size, read),
      λ h. tests.1 (elim h [
        | inl l ↦ ground (arith, l, size, read)
        | inr l ↦ ground (arith, l, size, read)
      ]),
    )

overruns :
    (bytes : List ℕ) (n lo hi : ℕ)
    → n ≤ length bytes
    → lo < 2 ^ 31
    → (hexbuf_of bytes (size_of (clip (pos n) lo hi)) ≡ none)
      ↔ ((hi < lo) ⊎ (256 < min n (hi - lo)))
overruns bytes n lo hi h small =
    let size = size_of (clip (pos n) lo hi) in
    let (ahead, reversed) = size_of-clip n lo hi small in
    let over = hexbuf_of-none_iff bytes size in
    elim (Bool-cases (ltb hi lo)) [
      | inl e ↦ let l : hi < lo = ground (arith, e) in (λ _. inl l, λ _. over.1 (inr (reversed l)))
      | inr e ↦
          let l : lo ≤ hi = ground (arith, e) in
          let s = ahead l in
          (
            λ z. elim (over.0 z) [
              | inl b ↦ absurd (omega (arith, b, s))
              | inr b ↦ inr (omega (arith, b, s))
            ],
            λ z.
                over.1
                  (inr (elim z [ inl b ↦ absurd (omega arith) | inr b ↦ omega (arith, b, s) ])),
          )
    ]

sync_line-none_iff :
    (fs : Otfs) (a : Arglist) (dstmax : ℕ) (f : File) (hi : ℕ) (db : fs.Db)
    (devmgr : List ℕ → List ℕ → ℤ × List ℕ) (hexbuf : Option (List ℕ))
    → (sync_line fs a dstmax f hi db devmgr hexbuf ≡ none) ↔ (hexbuf ≡ none)
unfolding sync_line
sync_line-none_iff fs a dstmax f hi db devmgr none = (λ h. refl, λ h. refl)
sync_line-none_iff fs a dstmax f hi db devmgr (some hexbuf) =
    (λ h. absurd (ground arith), λ h. absurd (ground arith))

hard_iff {ℓ κ} :
    {A : Type ℓ} {P : Type κ} (soft : Bool) (x : A) (o : Option A)
    → (o ≡ none → P)
    → (P → o ≡ none)
    → ((if soft then some x else o) ≡ none) ↔ ((soft ≡ false) × P)
hard_iff true x o to from = (λ h. absurd (ground arith), λ h. absurd (ground arith))
hard_iff false x o to from = (λ h. (refl, to h), λ h. from h.1)

-- For data of at least `filedata_size` bytes and a range that starts below 2^31, cmd_write leaves the
-- 513 bytes of `hexbuf`, or the data, where the device is to be written and either the range ends
-- before it starts, or more than 256 bytes are; and only there.
pub sync-none_iff :
    (fs : Otfs) (a : Arglist) (dstmax : ℕ) (f : File) (n hi : ℕ) (db : fs.Db)
    (devmgr : List ℕ → List ℕ → ℤ × List ℕ)
    → n ≤ length (data_of a.filedata)
    → a.range_lo < 2 ^ 31
    → (sync fs a dstmax f (clip (pos n) a.range_lo hi) hi db (some devmgr) ≡ none)
      ↔ ((a.soft_flag ≡ false) × ((hi < a.range_lo) ⊎ (256 < min n (hi - a.range_lo))))
unfolding sync
sync-none_iff fs a dstmax f n hi db devmgr h small =
    let bytes = data_of a.filedata in
    let hexbuf = hexbuf_of bytes (size_of (clip (pos n) a.range_lo hi)) in
    let line = sync_line-none_iff fs a dstmax f hi db devmgr hexbuf in
    let ranges = overruns bytes n a.range_lo hi h small in
    hard_iff a.soft_flag (data_of a.filedata, none) (sync_line fs a dstmax f hi db devmgr hexbuf)
      (λ z. ranges.0 (line.0 z)) (λ z. line.1 (ranges.1 z))

-- The number of a reply that is not in JSON.
abbrev pub without_json : Bool → ℤ → Option ℤ
without_json true rc = none
without_json false rc = some rc

-- A reply made without JSON has the error as its number, and its filesystem either way.
reply_parts :
    (fs : Otfs) (mem1 mem2 : List ℕ) (dstmax : ℕ) (json : Bool) (name1 name2 : List ℕ)
    (sent1 sent2 : Option (List ℕ)) (rc : ℤ) (db : fs.Db)
    → ((reply_err fs mem1 dstmax json name1 sent1 (rc, db)).db
        ≡ (reply_err fs mem2 dstmax json name2 sent2 (rc, db)).db)
      × (without_json json (reply_err fs mem1 dstmax json name1 sent1 (rc, db)).rc
          ≡ without_json json (reply_err fs mem2 dstmax json name2 sent2 (rc, db)).rc)
unfolding reply_err jsonout_err
reply_parts fs mem1 mem2 dstmax true name1 name2 sent1 sent2 rc db = (refl, refl)
reply_parts fs mem1 mem2 dstmax false name1 name2 sent1 sent2 rc db = (refl, refl)

same_reply :
    (fs : Otfs) (a : Arglist) (dstmax : ℕ) (result : ℤ × fs.Db)
    (o : Option (List ℕ × Option (List ℕ))) (r : Reply fs)
    → write_reply fs a dstmax result o ≡ some r
    → (r.db
        ≡ (reply_err fs (data_of a.filedata) dstmax a.jsonout_flag (codes "pub") none result).db)
      × (without_json a.jsonout_flag r.rc
          ≡ without_json a.jsonout_flag
              (reply_err fs
                (data_of a.filedata)
                dstmax
                a.jsonout_flag
                (codes "pub")
                none
                result).rc)
unfolding write_reply
same_reply fs a dstmax (rc, db) none r h = absurd (ground arith)
same_reply fs a dstmax (rc, db) (some (mem, sent)) r h =
    let q : reply_err fs mem dstmax a.jsonout_flag (codes "w") sent (rc, db) ≡ r =
      ground (arith, h) in
    rw (sym q) (
      reply_parts fs mem (data_of a.filedata) dstmax a.jsonout_flag (codes "w") (codes "pub") sent
        none rc db)

-- cmd_write leaves the same filesystem as cmd_pub would after the same attempt, whatever the device
-- answers; without JSON it also returns the same number.
pub write_finish-pub :
    (fs : Otfs) (a : Arglist) (dstmax : ℕ) (t : Attempt fs) (r : Reply fs)
    (devmgr : Option (List ℕ → List ℕ → ℤ × List ℕ))
    → write_finish fs devmgr a dstmax t ≡ some r
    → (r.db ≡ (pub_finish fs a dstmax t).db)
      × (without_json a.jsonout_flag r.rc
          ≡ without_json a.jsonout_flag (pub_finish fs a dstmax t).rc)
unfolding write_finish pub_finish
write_finish-pub fs a dstmax (refused rc db) r devmgr h =
    same_reply fs a dstmax (rc, db) (some (data_of a.filedata, none)) r h
write_finish-pub fs a dstmax (wrote f span hi db) r devmgr h =
    same_reply fs a dstmax (pos 0, fs.close f db) (sync fs a dstmax f span hi db devmgr) r h
