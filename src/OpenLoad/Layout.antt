-- ===== src/OpenLoad/Layout.antt =====
-- Where the files of a template lie, by cmd_open of main/cmd_open_load.c.
use otdb.Base.{
  ℕ, zero, suc, ◌≤◌, ◌≡◌, ◌∙◌, refl, ap, List, [], ◌∷◌, false, none, some, length, arith,
}
use otdb.Base.Int.{ℤ, pos, ◌+ℤ◌, ◌≤ℤ◌, int_laws}
use otdb.Args.{BlockId, gfb, iss, isf}
use otdb.Cjson.{Cjson}
use otdb.OpenLoad.{
  FsHeader, no_files, usage_of, Entry, Tables, table_of, set_bases, place_files, zero_tables,
  block_start, derive_bases, built, after_check, build_template,
}
use otdb.OpenLoad.Counts.{HaveSizes, size_sum, IsCounted, count_files-Counts}
use otdb.OpenLoad.Places.{alloc_sum, place_files-Fills, zero_sum, zero_length}

-- The first `used` files lie one behind the other from `lo` on, and end at `hi` at the latest.
abbrev pub IsLaid : ℤ → ℤ → ℕ → List Entry → Type 0
IsLaid hi lo zero ts = lo ≤ℤ hi
IsLaid hi lo (suc used) [] = ⊥
IsLaid hi lo (suc used) (t ∷ ts) = (t.base ≡ lo) × IsLaid hi (lo +ℤ pos t.alloc) used ts

set_bases-IsLaid :
    (hi lo : ℤ) (used : ℕ) (ts : List Entry)
    → used ≤ length ts
    → (lo +ℤ pos (alloc_sum ts)) ≤ℤ hi
    → IsLaid hi lo used (set_bases lo used ts)
unfolding set_bases
set_bases-IsLaid hi lo zero ts h l = omega int_laws
set_bases-IsLaid hi lo (suc used) [] h l = absurd (omega arith)
set_bases-IsLaid hi lo (suc used) (t ∷ ts) h l =
    (refl, set_bases-IsLaid hi (lo +ℤ pos t.alloc) used ts (omega arith) (omega int_laws))

derived :
    (fsheader_size header_size : ℕ) (h : FsHeader) (t : Tables) (b : BlockId)
    → table_of b (derive_bases fsheader_size header_size h t)
      ≡ set_bases (block_start fsheader_size header_size h b) (usage_of b h).used (table_of b t)
unfolding derive_bases
derived m n h t gfb = refl
derived m n h t iss = refl
derived m n h t isf = refl

empty_usage : (b : BlockId) → (usage_of b no_files).alloc ≡ pos 0
empty_usage gfb = refl
empty_usage iss = refl
empty_usage isf = refl

empty-IsCounted : (b : BlockId) → IsCounted (usage_of b no_files)
empty-IsCounted gfb = omega arith
empty-IsCounted iss = omega arith
empty-IsCounted isf = omega arith

end_of : (lo a : ℤ) (s n : ℕ) → a ≡ pos 0 +ℤ pos n → s ≤ n → (lo +ℤ pos s) ≤ℤ (lo +ℤ a)
end_of lo a s n e h = rw e (omega int_laws)

-- Where the metadata of every object of the template has an id and a size that are numbers, the size of 16
-- bits, on a JSON library where only a text has a `valuestring`: cmd_open accepts the template, and
-- in each block the stock files of the file table lie one behind the other, from where the block
-- begins up to at most where its allocation ends.
pub build_template-IsLaid :
    (cj : Cjson) (plain : (e : cj.Item) → cj.is_string e ≡ false → cj.valuestring e ≡ none)
    (fsheader_size header_size now : ℕ) (tmpl : cj.Item)
    → HaveSizes cj (cj.children tmpl)
    → (h : FsHeader) × (t : Tables) × (build_template cj fsheader_size header_size now (some tmpl)
        ≡ built h t)
      × ((b : BlockId)
          → IsLaid
              (block_start fsheader_size header_size h b +ℤ (usage_of b h).alloc)
              (block_start fsheader_size header_size h b)
              (usage_of b h).used
              (table_of b t))
unfolding build_template after_check
build_template-IsLaid cj plain m n now tmpl sizes =
    let objs = cj.children tmpl in
    let c = count_files-Counts cj plain objs no_files sizes in
    let h = c.header in
    let placed = place_files cj now h objs (zero_tables h) in
    let laid : (b : BlockId)
        → IsLaid (block_start m n h b +ℤ (usage_of b h).alloc) (block_start m n h b)
            (usage_of b h).used (table_of b (derive_bases m n h placed)) =
      λ b.
        let f = place_files-Fills cj now h b objs (zero_tables h) in
        rw (derived m n h placed b) (
          set_bases-IsLaid (block_start m n h b +ℤ (usage_of b h).alloc) (block_start m n h b)
            (usage_of b h).used (table_of b placed)
            (omega (arith, f.count, zero_length b h, c.kept b (empty-IsCounted b)))
            (end_of (block_start m n h b) (usage_of b h).alloc (alloc_sum (table_of b placed))
              (size_sum cj b objs)
              (c.sizes b ∙ ap (λ z. z +ℤ pos (size_sum cj b objs)) (empty_usage b))
              (omega (arith, f.sum, zero_sum b h)))) in
    (h, derive_bases m n h placed, rw c.result refl, laid)
