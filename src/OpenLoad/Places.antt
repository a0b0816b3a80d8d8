-- ===== src/OpenLoad/Places.antt =====
-- What the entries of a template's files add up to in their tables, in cmd_open of
-- main/cmd_open_load.c.
use otdb.Base.{
  ℕ, zero, suc, ◌+◌, ◌≤◌, ◌≡◌, ◌∙◌, refl, ap, List, [], ◌∷◌, Option, none, some, length, replicate,
  length-replicate, ltb, arith,
}
use otdb.Base.Branch.{if-both}
use otdb.Text.{codes}
use otdb.Args.{BlockId, gfb, iss, isf}
use otdb.Cjson.{Cjson}
use otdb.JsonTools.{extract_id}
use otdb.OpenLoad.{
  FsHeader, usage_of, Entry, zero_entry, Tables, table_of, with_table, write_entry, place_meta,
  place_object, place_files, zero_tables,
}
use otdb.OpenLoad.Counts.{share, meta_share, size_sum, block_of}

abbrev pub alloc_sum : List Entry → ℕ
alloc_sum [] = 0
alloc_sum (t ∷ ts) = t.alloc + alloc_sum ts

write_entry-sum :
    (id : ℕ) (e : Entry) (ts : List Entry)
    → alloc_sum (write_entry id e ts) ≤ alloc_sum ts + e.alloc
unfolding write_entry
write_entry-sum id e [] = omega arith
write_entry-sum zero e (t ∷ ts) = omega arith
write_entry-sum (suc id) e (t ∷ ts) = omega (arith, write_entry-sum id e ts)

length-write_entry :
    (id : ℕ) (e : Entry) (ts : List Entry) → length (write_entry id e ts) ≡ length ts
unfolding write_entry
length-write_entry id e [] = refl
length-write_entry zero e (t ∷ ts) = refl
length-write_entry (suc id) e (t ∷ ts) = ap suc (length-write_entry id e ts)

-- An entry written to a block's table.
table-sum :
    (b c : BlockId) (id : ℕ) (e : Entry) (t : Tables)
    → alloc_sum (table_of b (with_table c (write_entry id e (table_of c t)) t))
      ≤ alloc_sum (table_of b t) + share b c e.alloc
table-sum gfb gfb id e t = write_entry-sum id e t.gfb_files
table-sum iss iss id e t = write_entry-sum id e t.iss_files
table-sum isf isf id e t = write_entry-sum id e t.isf_files
table-sum gfb iss id e t = omega arith
table-sum gfb isf id e t = omega arith
table-sum iss gfb id e t = omega arith
table-sum iss isf id e t = omega arith
table-sum isf gfb id e t = omega arith
table-sum isf iss id e t = omega arith

table-length :
    (b c : BlockId) (id : ℕ) (e : Entry) (t : Tables)
    → length (table_of b (with_table c (write_entry id e (table_of c t)) t)) ≡ length (table_of b t)
table-length gfb gfb id e t = length-write_entry id e t.gfb_files
table-length iss iss id e t = length-write_entry id e t.iss_files
table-length isf isf id e t = length-write_entry id e t.isf_files
table-length gfb iss id e t = refl
table-length gfb isf id e t = refl
table-length iss gfb id e t = refl
table-length iss isf id e t = refl
table-length isf gfb id e t = refl
table-length isf iss id e t = refl

-- A table that has grown by at most `n`, in as many entries.
pub record Fills (n : ℕ) (b : BlockId) (t t1 : Tables) : Type 0 where
  pub sum : alloc_sum (table_of b t1) ≤ alloc_sum (table_of b t) + n
  pub count : length (table_of b t1) ≡ length (table_of b t)

module _ (cj : Cjson) (now : ℕ) (h : FsHeader) (b : BlockId) where
  place_object-Fills :
      (o : Option cj.Item) (t : Tables) → Fills (meta_share cj b o) b t (place_object cj now h o t)
  unfolding place_object place_meta
  place_object-Fills none t = record { sum = omega arith; count = refl }
  place_object-Fills (some meta) t =
      if-both (Fills (meta_share cj b (some meta)) b t)
        (ltb (extract_id cj (some meta)) (usage_of (block_of cj meta) h).used) _ _
        (λ _. record {
          sum = table-sum b (block_of cj meta) _ _ t;
          count = table-length b (block_of cj meta) _ _ t;
        })
        (λ _. record { sum = omega arith; count = refl })

  pub place_files-Fills :
      (objs : List cj.Item) (t : Tables)
      → Fills (size_sum cj b objs) b t (place_files cj now h objs t)
  unfolding place_files
  place_files-Fills [] t = record { sum = omega arith; count = refl }
  place_files-Fills (obj ∷ objs) t =
      let o = cj.get_item obj (codes "_meta") in
      let one = place_object-Fills o t in
      let more = place_files-Fills objs (place_object cj now h o t) in
      record { sum = omega (arith, one.sum, more.sum); count = more.count ∙ one.count }

alloc_sum-zero : (n : ℕ) → alloc_sum (replicate n zero_entry) ≡ 0
alloc_sum-zero zero = refl
alloc_sum-zero (suc n) = omega (arith, alloc_sum-zero n)

pub zero_sum : (b : BlockId) (h : FsHeader) → alloc_sum (table_of b (zero_tables h)) ≡ 0
zero_sum gfb h = alloc_sum-zero h.gfb_usage.files
zero_sum iss h = alloc_sum-zero h.iss_usage.files
zero_sum isf h = alloc_sum-zero h.isf_usage.files

pub zero_length :
    (b : BlockId) (h : FsHeader) → length (table_of b (zero_tables h)) ≡ (usage_of b h).files
zero_length gfb h = length-replicate h.gfb_usage.files zero_entry
zero_length iss h = length-replicate h.iss_usage.files zero_entry
zero_length isf h = length-replicate h.isf_usage.files zero_entry
