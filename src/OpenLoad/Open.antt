-- ===== src/OpenLoad/Open.antt =====
-- cmd_open of main/cmd_open_load.c as a whole: the default contents of all files (4c), and the database and
-- the template that are attached at the end. The memory of the new filesystem is a list of
-- bytes; its file table at the start is kept apart, as records.
pub mod Held
pub mod Command
pub mod Empty
pub mod Whole
mod Tests
use otdb.Base.{
  ℕ, zero, suc, ◌+◌, ◌-◌, List, [], ◌∷◌, ◌++◌, Bool, true, false, Option, none, some, take,
  replicate, ltb, if◌then◌else◌,
}
use otdb.Base.Int.{ℤ, pos, negsuc, ◌+ℤ◌, pos_part, ltb_ℤ}
use otdb.Text.{codes}
use otdb.Args.{BlockId}
use otdb.Files.{is_zero}
use otdb.Cjson.{Cjson, Floats}
use otdb.JsonTools.{ContentType, extract_id, extract_blockid}
use otdb.OpenLoad.{
  FsHeader, Usage, Entry, Tables, usage_of, table_of, with_table, block_case, meta_type, ftab_alloc,
  Template, refused, built,
}
use otdb.OpenLoad.Contents.{Filled, default_content}

unfoldable entry_at : ℕ → List Entry → Option Entry
entry_at id [] = none
entry_at zero (e ∷ es) = some e
entry_at (suc id) (e ∷ es) = entry_at id es

unfoldable set_length : ℕ → ℕ → List Entry → List Entry
set_length id len [] = []
set_length zero len (e ∷ es) = record e { length = len } ∷ es
set_length (suc id) len (e ∷ es) = e ∷ set_length id len es

-- The tables, and the memory.
abbrev FilledTables : Type 0
FilledTables = Option (Tables × List ℕ)

unfoldable with_contents : BlockId → ℕ → Tables → Filled → FilledTables
with_contents b id t none = none
with_contents b id t (some (mem, len)) =
    some (with_table b (set_length id len (table_of b t)) t, mem)

module _ (cj : Cjson) (fl : Floats) where
  -- Contents at a base below the memory are outside of it.
  unfoldable contents_at : ContentType → ℤ → ℕ → Option cj.Item → List ℕ → Filled
  contents_at type base alloc none mem = some (mem, 0)
  contents_at type (negsuc n) alloc (some content) mem = none
  contents_at type (pos base) alloc (some content) mem =
      default_content cj fl type base alloc (some content) mem

  unfoldable fill_entry :
      BlockId → ℕ → Option Entry → ContentType → Option cj.Item → Tables → List ℕ → FilledTables
  fill_entry b id none type content t mem = none
  fill_entry b id (some hdr) type content t mem =
      with_contents b id t (contents_at type hdr.base hdr.alloc content mem)

  unfoldable fill_meta : FsHeader → cj.Item → Option cj.Item → Tables → List ℕ → FilledTables
  fill_meta h meta content t mem =
      let id = extract_id cj (some meta) in
      let b = block_case (extract_blockid cj (some meta)) in
      if ltb id (usage_of b h).used
      then fill_entry b id (entry_at id (table_of b t)) (meta_type cj meta) content t mem
      else some (t, mem)

  unfoldable fill_object :
      FsHeader → Option cj.Item → Option cj.Item → Tables → List ℕ → FilledTables
  fill_object h none content t mem = some (t, mem)
  fill_object h (some meta) content t mem = fill_meta h meta content t mem

  -- The loop of 4c over the files of the template.
  unfoldable fill_files : FsHeader → List cj.Item → Tables → List ℕ → FilledTables
  fill_files h [] t mem = some (t, mem)
  fill_files h (obj ∷ objs) t mem =
      elim (fill_object h (cj.get_item obj (codes "_meta")) (cj.get_item obj (codes "_content")) t
        mem) [ none ↦ none | some (t1, mem1) ↦ fill_files h objs t1 mem1 ]

-- What of `dth->ext` the command replaces.
pub record Attached (Db Tmpl Fs : Type 0) : Type 0 where
  pub db : Option Db
  pub tmpl : Option Tmpl
  pub tmpl_fs : Option Fs

-- What the copy of the template into permanent memory comes to: its size is zero; no memory; no copy;
-- or the copy.
pub data Copied (Tmpl : Type 0) : Type 0 where
  no_size no_memory no_copy : Copied Tmpl
  copy : Tmpl → Copied Tmpl

-- otfs_deinit of the database before, where there is one, and ERRCODE of it.
unfoldable deinit_rc : {Db : Type 0} → (Db → ℤ) → (ℤ → ℤ) → Option Db → ℤ → ℤ
deinit_rc deinit errcode none rc = rc
deinit_rc deinit errcode (some db) rc = if is_zero (deinit db) then pos 0 else errcode (deinit db)

-- From cmd_open_CLOSE to cmd_open_ENDGAME: the result, and `tmpl_export`.
unfoldable export_template :
    {Db Tmpl : Type 0} → (Db → ℤ) → (ℤ → ℤ) → Option Db → ℤ → Copied Tmpl → ℤ × Option Tmpl
export_template deinit errcode before rc no_size = (deinit_rc deinit errcode before rc, none)
export_template deinit errcode before rc no_memory = (negsuc 8, none)
export_template deinit errcode before rc no_copy = (negsuc 9, none)
export_template deinit errcode before rc (copy t) = (deinit_rc deinit errcode before rc, some t)

unfoldable close_open :
    {Db Tmpl : Type 0} → (Db → ℤ) → (ℤ → ℤ) → Option Db → ℤ → Copied Tmpl → ℤ × Option Tmpl
close_open deinit errcode before rc c =
    if ltb_ℤ rc (pos 0) then (rc, none) else export_template deinit errcode before rc c

-- cmd_open_ENDGAME
unfoldable attach :
    {Db Tmpl Fs : Type 0}
    → Option Db
    → Option Fs
    → ℤ × Option Tmpl
    → Attached Db Tmpl Fs
    → Attached Db Tmpl Fs
attach {Db = Db} {Tmpl = Tmpl} {Fs = Fs} db fs (rc, tmpl) ext =
    let opened : Attached Db Tmpl Fs = record { db = db; tmpl = tmpl; tmpl_fs = fs } in
    if ltb_ℤ rc (pos 0) then ext else opened

-- The end of the command: `rc` is the result so far, and `db` and `fs` what it has made.
unfoldable finish_open :
    {Db Tmpl Fs : Type 0}
    → (Db → ℤ)
    → (ℤ → ℤ)
    → Option Db
    → Option Fs
    → ℤ
    → Copied Tmpl
    → Attached Db Tmpl Fs
    → ℤ × Attached Db Tmpl Fs
finish_open deinit errcode db fs rc c ext =
    let closed = close_open deinit errcode ext.db rc c in (closed.0, attach db fs closed ext)
