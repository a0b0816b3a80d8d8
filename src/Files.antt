-- ===== src/Files.antt =====
-- The file commands of main/cmd_filecmds.c: what they share.
pub mod Toy
pub mod Admin
mod Tests
pub mod Write
pub mod Read
pub mod RoundTrip
use otdb.Base.{
  ℕ, zero, suc, ◌+◌, List, Bool, true, false, Option, none, some, ◌==◌, if◌then◌else◌, ◌&&◌,
}
use otdb.Base.Int.{ℤ, pos, negsuc, ◌+ℤ◌, ◌-ℤ◌, pos_part, neg_part}
use otdb.Output.{jsonout_err}
use otdb.Args.{Arglist}
use otdb.Otfs.{Otfs}

abbrev pub is_zero : ℤ → Bool
is_zero (pos zero) = true
is_zero (pos (suc n)) = false
is_zero (negsuc n) = false

-- Go on where `rc` is 0.
abbrev pub on_success : {D : Type 0} → ℤ × D → (D → ℤ × D) → ℤ × D
on_success (rc, db) k = if is_zero rc then k db else (rc, db)

-- `if (rc != 0) rc = -512 - rc`
abbrev pub fs_result : {D : Type 0} → ℤ × D → ℤ × D
fs_result (rc, db) = (if is_zero rc then rc else negsuc 511 -ℤ rc, db)

-- The filesystem to go on with, or the jump to the command's end with an error.
pub data Selected (D : Type 0) : Type 0 where
  selected : D → Selected D
  unselected : ℤ → D → Selected D

abbrev pub with_selected : {D : Type 0} → Selected D → (D → ℤ × D) → ℤ × D
with_selected (selected db) k = k db
with_selected (unselected rc db) k = (rc, db)

module _ (fs : Otfs) where
  -- `if (arglist.devid != 0)` and its otfs_setfs.
  unfoldable pub select : ℕ → fs.Db → Selected fs.Db
  select devid db =
      if devid == 0
      then selected db
      else (let (rc, db1) = fs.setfs devid db in
          if is_zero rc then selected db1 else unselected (negsuc 255 +ℤ rc) db1)

  -- A command's return value, the memory at `dst`, the filesystem, and the text given to dm_xnprintf.
  pub record Reply : Type 0 where
    pub rc : ℤ
    pub mem : List ℕ
    pub db : fs.Db
    pub sent : Option (List ℕ)

  -- The end of a command that replies by cmd_jsonout_err.
  unfoldable pub reply_err : List ℕ → ℕ → Bool → List ℕ → Option (List ℕ) → ℤ × fs.Db → Reply
  reply_err mem dstmax json cmdname sent (rc, db) =
      let (out, ret) = jsonout_err mem dstmax json rc cmdname in
      record { rc = ret; mem = out; db = db; sent = sent }
