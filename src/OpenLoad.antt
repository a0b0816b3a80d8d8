-- ===== src/OpenLoad.antt =====
-- cmd_open of main/cmd_open_load.c, from the parsed template on: the check of its metadata, and the file
-- table that is made of it. The fields of the library's headers are numbers without a width.
pub mod Counts
pub mod Places
pub mod Layout
pub mod Open
pub mod Contents
pub mod DataFile
pub mod Devices
mod Tests
use otdb.Base.{
  ℕ, zero, suc, ◌+◌, ◌*◌, List, [], ◌∷◌, Bool, true, false, Option, none, some, replicate, ltb,
  ◌==◌, if◌then◌else◌,
}
use otdb.Base.Int.{ℤ, pos, negsuc, ◌+ℤ◌}
use otdb.Text.{codes}
use otdb.Args.{BlockId, gfb, iss, isf, low_bits}
use otdb.Cjson.{Cjson}
use otdb.JsonTools.{
  ContentType, content_array, int_of, extract_id, extract_mod, blockid, extract_blockid,
  extract_size, extract_time, is_nonzero, tmpltype,
}

-- vlBLOCKHEADER, and the three of a vlFSHEADER.
pub record Usage : Type 0 where
  pub alloc : ℤ
  pub used : ℕ
  pub files : ℕ

pub record FsHeader : Type 0 where
  pub gfb_usage : Usage
  pub iss_usage : Usage
  pub isf_usage : Usage

abbrev no_files : FsHeader
no_files =
    let empty : Usage = record { alloc = pos 0; used = 0; files = 0 } in
    record { gfb_usage = empty; iss_usage = empty; isf_usage = empty }

-- The cases of a switch on a block number.
abbrev block_case : ℕ → BlockId
block_case n = if n == 1 then gfb else if n == 2 then iss else isf

abbrev usage_of : BlockId → FsHeader → Usage
usage_of gfb h = h.gfb_usage
usage_of iss h = h.iss_usage
usage_of isf h = h.isf_usage

abbrev with_usage : BlockId → Usage → FsHeader → FsHeader
with_usage gfb u h = record h { gfb_usage = u }
with_usage iss u h = record h { iss_usage = u }
with_usage isf u h = record h { isf_usage = u }

unfoldable add_file : ℤ → Bool → Usage → Usage
add_file filesize stock u = record {
  alloc = u.alloc +ℤ filesize;
  used = u.used + (if stock then 1 else 0);
  files = u.files + 1;
}

-- The error, or the header so far.
pub data Checked : Type 0 where
  rejected : ℤ → Checked
  counted : FsHeader → Checked

abbrev then_check : Checked → (FsHeader → Checked) → Checked
then_check (rejected rc) f = rejected rc
then_check (counted h) f = f h

-- An entry of the file table, vl_header_t.
pub record Entry : Type 0 where
  pub base : ℤ
  pub alloc : ℕ
  pub length : ℕ
  pub idmod : ℕ
  pub modtime : ℕ
  pub mirror : ℕ

abbrev zero_entry : Entry
zero_entry = record { base = pos 0; alloc = 0; length = 0; idmod = 0; modtime = 0; mirror = 0 }

pub record Tables : Type 0 where
  pub gfb_files : List Entry
  pub iss_files : List Entry
  pub isf_files : List Entry

abbrev table_of : BlockId → Tables → List Entry
table_of gfb t = t.gfb_files
table_of iss t = t.iss_files
table_of isf t = t.isf_files

abbrev with_table : BlockId → List Entry → Tables → Tables
with_table gfb l t = record t { gfb_files = l }
with_table iss l t = record t { iss_files = l }
with_table isf l t = record t { isf_files = l }

-- What the entry at `id` keeps is its base and its length.
unfoldable write_entry : ℕ → Entry → List Entry → List Entry
write_entry id e [] = []
write_entry zero e (t ∷ ts) = record e { base = t.base; length = t.length } ∷ ts
write_entry (suc id) e (t ∷ ts) = t ∷ write_entry id e ts

-- 4b: the base of each of the first `used` entries, one behind the other.
unfoldable set_bases : ℤ → ℕ → List Entry → List Entry
set_bases start zero ts = ts
set_bases start (suc used) [] = []
set_bases start (suc used) (t ∷ ts) =
    record t { base = start } ∷ set_bases (start +ℤ pos t.alloc) used ts

module _ (cj : Cjson) where
  unfoldable is_number_item : Option cj.Item → Bool
  is_number_item none = false
  is_number_item (some elem) = cj.is_number elem

  -- 3a: a "stock" that is no Boolean is set to true.
  unfoldable is_stock : Option cj.Item → Bool
  is_stock none = true
  is_stock (some elem) = if cj.is_bool elem then is_nonzero (cj.valueint elem) else true

  -- A "block" that is no text is set to "isf".
  unfoldable checked_block : Option cj.Item → ℕ
  checked_block none = 3
  checked_block (some elem) = if cj.is_string elem then blockid cj (some elem) else 3

  unfoldable count_meta : cj.Item → FsHeader → Checked
  count_meta meta h =
      let size = cj.get_item meta (codes "size") in
      let b = block_case (checked_block (cj.get_item meta (codes "block"))) in
      let stock = is_stock (cj.get_item meta (codes "stock")) in
      if is_number_item (cj.get_item meta (codes "id"))
      then (if is_number_item size
          then counted (with_usage b (add_file (int_of cj size) stock (usage_of b h)) h)
          else rejected (negsuc 3))
      else rejected (negsuc 2)

  unfoldable count_object : Option cj.Item → FsHeader → Checked
  count_object none h = counted h
  count_object (some meta) h = count_meta meta h

  -- The loop of 3a over the items of the template.
  unfoldable count_files : List cj.Item → FsHeader → Checked
  count_files [] h = counted h
  count_files (obj ∷ objs) h =
      then_check (count_object (cj.get_item obj (codes "_meta")) h) (λ h1. count_files objs h1)

  -- What 4 and 4c read of the metadata, after 3a has added what was missing to it: where an item of the
  -- name is there, it is still the one that is found.
  unfoldable meta_mod : cj.Item → ℕ
  meta_mod meta = elim (cj.get_item meta (codes "mod")) [
    | none ↦ 52
    | some e ↦ extract_mod cj (some meta)
  ]

  unfoldable meta_time : ℕ → cj.Item → ℕ
  meta_time now meta = elim (cj.get_item meta (codes "modtime")) [
    | none ↦ now
    | some e ↦ extract_time cj (some meta)
  ]

  unfoldable meta_type : cj.Item → ContentType
  meta_type meta = elim (cj.get_item meta (codes "type")) [
    | none ↦ content_array
    | some e ↦ tmpltype cj (some e)
  ]

  -- 4: the entry of an object, where its id is below the number of the block's stock files.
  unfoldable place_meta : ℕ → FsHeader → cj.Item → Tables → Tables
  place_meta now h meta t =
      let id = extract_id cj (some meta) in
      let b = block_case (extract_blockid cj (some meta)) in
      let e : Entry = record {
        base = pos 0;
        alloc = extract_size cj (some meta);
        length = 0;
        idmod = id + 256 * meta_mod meta;
        modtime = meta_time now meta;
        mirror = 65535;
      } in
      if ltb id (usage_of b h).used then with_table b (write_entry id e (table_of b t)) t else t

  unfoldable place_object : ℕ → FsHeader → Option cj.Item → Tables → Tables
  place_object now h none t = t
  place_object now h (some meta) t = place_meta now h meta t

  unfoldable place_files : ℕ → FsHeader → List cj.Item → Tables → Tables
  place_files now h [] t = t
  place_files now h (obj ∷ objs) t =
      place_files now h objs (place_object now h (cj.get_item obj (codes "_meta")) t)

-- The tables after talloc_zero_size.
abbrev zero_tables : FsHeader → Tables
zero_tables h = record {
  gfb_files = replicate h.gfb_usage.files zero_entry;
  iss_files = replicate h.iss_usage.files zero_entry;
  isf_files = replicate h.isf_usage.files zero_entry;
}

-- `sizeof(vlFSHEADER)` and `sizeof(vl_header_t)` are the first arguments.
unfoldable ftab_alloc : ℕ → ℕ → FsHeader → ℕ
ftab_alloc fsheader_size header_size h =
    fsheader_size + header_size * (h.isf_usage.files + h.iss_usage.files + h.gfb_usage.files)

-- Where the files of a block begin.
unfoldable block_start : ℕ → ℕ → FsHeader → BlockId → ℤ
block_start fsheader_size header_size h gfb = pos (ftab_alloc fsheader_size header_size h)
block_start fsheader_size header_size h iss =
    pos (ftab_alloc fsheader_size header_size h) +ℤ h.gfb_usage.alloc
block_start fsheader_size header_size h isf =
    pos (ftab_alloc fsheader_size header_size h) +ℤ h.gfb_usage.alloc +ℤ h.iss_usage.alloc

unfoldable derive_bases : ℕ → ℕ → FsHeader → Tables → Tables
derive_bases fsheader_size header_size h t =
    let start = block_start fsheader_size header_size h in
    record {
      gfb_files = set_bases (start gfb) h.gfb_usage.used t.gfb_files;
      iss_files = set_bases (start iss) h.iss_usage.used t.iss_files;
      isf_files = set_bases (start isf) h.isf_usage.used t.isf_files;
    }

-- The error of the check, or the header with the file tables of 4 and 4b.
pub data Template : Type 0 where
  refused : ℤ → Template
  built : FsHeader → Tables → Template

unfoldable after_check : (cj : Cjson) → ℕ → ℕ → ℕ → List cj.Item → Checked → Template
after_check cj fsheader_size header_size now objs (rejected rc) = refused rc
after_check cj fsheader_size header_size now objs (counted h) =
    built h (derive_bases fsheader_size header_size h (place_files cj now h objs (zero_tables h)))

-- From 3a to 4b. `tmpl` is `none` where no file of the directory _TMPL was found.
unfoldable build_template : (cj : Cjson) → ℕ → ℕ → ℕ → Option cj.Item → Template
build_template cj fsheader_size header_size now none = refused (negsuc 1)
build_template cj fsheader_size header_size now (some tmpl) =
    after_check cj fsheader_size header_size now (cj.children tmpl)
      (count_files cj (cj.children tmpl) no_files)
