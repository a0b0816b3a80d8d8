-- ===== src/OpenLoad/Open/Empty.antt =====
-- The lengths in the file table that cmd_open of main/cmd_open_load.c makes of a template: they are zero.
use mathlib.Core.Path.{subst}
use otdb.Base.{ℕ, zero, suc, ◌≡◌, refl, ap, List, [], ◌∷◌, Option, none, some, replicate, ltb}
use otdb.Base.Branch.{if-both}
use otdb.Base.Int.{ℤ, pos, ◌+ℤ◌}
use otdb.Text.{codes}
use otdb.Args.{BlockId, gfb, iss, isf}
use otdb.Cjson.{Cjson}
use otdb.JsonTools.{extract_id, extract_blockid}
use otdb.OpenLoad.{
  FsHeader, Entry, zero_entry, Tables, usage_of, table_of, with_table, block_case, write_entry,
  set_bases, place_meta, place_object, place_files, zero_tables, derive_bases, Template, built,
  refused, after_check, Checked, rejected, counted,
}

-- Entries without a length.
abbrev pub AreEmpty : List Entry → Type 0
AreEmpty [] = Unit
AreEmpty (t ∷ ts) = (t.length ≡ 0) × AreEmpty ts

replicate-AreEmpty : (n : ℕ) → AreEmpty (replicate n zero_entry)
replicate-AreEmpty zero = tt
replicate-AreEmpty (suc n) = (refl, replicate-AreEmpty n)

write_entry-AreEmpty :
    (id : ℕ) (e : Entry) (ts : List Entry) → AreEmpty ts → AreEmpty (write_entry id e ts)
unfolding write_entry
write_entry-AreEmpty id e [] h = tt
write_entry-AreEmpty zero e (t ∷ ts) h = h
write_entry-AreEmpty (suc id) e (t ∷ ts) h = (h.0, write_entry-AreEmpty id e ts h.1)

set_bases-AreEmpty :
    (start : ℤ) (used : ℕ) (ts : List Entry) → AreEmpty ts → AreEmpty (set_bases start used ts)
unfolding set_bases
set_bases-AreEmpty start zero ts h = h
set_bases-AreEmpty start (suc used) [] h = tt
set_bases-AreEmpty start (suc used) (t ∷ ts) h =
    (h.0, set_bases-AreEmpty (start +ℤ pos t.alloc) used ts h.1)

abbrev pub AllEmpty : Tables → Type 0
AllEmpty t = AreEmpty t.gfb_files × (AreEmpty t.iss_files × AreEmpty t.isf_files)

pub table-AreEmpty : (t : Tables) (b : BlockId) → AllEmpty t → AreEmpty (table_of b t)
table-AreEmpty t gfb h = h.0
table-AreEmpty t iss h = h.1.0
table-AreEmpty t isf h = h.1.1

with_entry-AllEmpty :
    (b : BlockId) (id : ℕ) (e : Entry) (t : Tables)
    → AllEmpty t
    → AllEmpty (with_table b (write_entry id e (table_of b t)) t)
with_entry-AllEmpty gfb id e t h = (write_entry-AreEmpty id e t.gfb_files h.0, h.1)
with_entry-AllEmpty iss id e t h = (h.0, (write_entry-AreEmpty id e t.iss_files h.1.0, h.1.1))
with_entry-AllEmpty isf id e t h = (h.0, (h.1.0, write_entry-AreEmpty id e t.isf_files h.1.1))

module _ (cj : Cjson) (now : ℕ) (h : FsHeader) where
  place_object-AllEmpty :
      (meta : Option cj.Item) (t : Tables) → AllEmpty t → AllEmpty (place_object cj now h meta t)
  unfolding place_object place_meta
  place_object-AllEmpty none t a = a
  place_object-AllEmpty (some meta) t a =
      let id = extract_id cj (some meta) in
      let b = block_case (extract_blockid cj (some meta)) in
      if-both AllEmpty (ltb id (usage_of b h).used) _ t (λ below. with_entry-AllEmpty b id _ t a)
        (λ above. a)

  place_files-AllEmpty :
      (objs : List cj.Item) (t : Tables) → AllEmpty t → AllEmpty (place_files cj now h objs t)
  unfolding place_files
  place_files-AllEmpty [] t a = a
  place_files-AllEmpty (obj ∷ objs) t a =
      place_files-AllEmpty objs (place_object cj now h (cj.get_item obj (codes "_meta")) t)
        (place_object-AllEmpty (cj.get_item obj (codes "_meta")) t a)

  derived-AllEmpty :
      (m n : ℕ) (objs : List cj.Item)
      → AllEmpty (derive_bases m n h (place_files cj now h objs (zero_tables h)))
  unfolding derive_bases
  derived-AllEmpty m n objs =
      let a = place_files-AllEmpty objs (zero_tables h) (
        replicate-AreEmpty h.gfb_usage.files,
        (replicate-AreEmpty h.iss_usage.files, replicate-AreEmpty h.isf_usage.files),
      ) in
      (
        set_bases-AreEmpty _ h.gfb_usage.used _ a.0,
        (
          set_bases-AreEmpty _ h.iss_usage.used _ a.1.0,
          set_bases-AreEmpty _ h.isf_usage.used _ a.1.1,
        ),
      )

abbrev tables_or : Tables → Template → Tables
tables_or t (refused rc) = t
tables_or t (built h t1) = t1

pub after_check-AllEmpty :
    (cj : Cjson) (m n now : ℕ) (objs : List cj.Item) (c : Checked) (h : FsHeader) (t : Tables)
    → after_check cj m n now objs c ≡ built h t
    → AllEmpty t
unfolding after_check
after_check-AllEmpty cj m n now objs (rejected rc) h t e = absurd (cc)
after_check-AllEmpty cj m n now objs (counted h1) h t e =
    subst AllEmpty (ap (tables_or t) e) (derived-AllEmpty cj now h1 m n objs)
