-- ===== src/OpenLoad/Counts.antt =====
-- What the check of a template's metadata counts, in cmd_open of main/cmd_open_load.c.
use otdb.Base.{
  ℕ, ◌+◌, ◌≤◌, ◌≡◌, ◌∙◌, refl, ap, List, [], ◌∷◌, Bool, true, false, Option, none, some, arith,
}
use otdb.Base.Branch.{if-both}
use otdb.Base.Int.{ℤ, pos, ◌+ℤ◌, int_laws}
use otdb.Text.{codes}
use otdb.Args.{BlockId, gfb, iss, isf}
use otdb.Cjson.{Cjson}
use otdb.JsonTools.{int_of, member, blockid, block_named, text_of, extract_blockid, extract_size}
use otdb.OpenLoad.{
  Usage, FsHeader, block_case, usage_of, with_usage, add_file, Checked, counted, is_number_item,
  is_stock, checked_block, count_meta, count_object, count_files,
}

-- A number where the blocks are the same.
abbrev pub share : BlockId → BlockId → ℕ → ℕ
share gfb gfb n = n
share iss iss n = n
share isf isf n = n
share _ _ n = 0

module _ (cj : Cjson) where
  abbrev pub block_of : cj.Item → BlockId
  block_of meta = block_case (extract_blockid cj (some meta))

  abbrev pub size_of : cj.Item → ℕ
  size_of meta = extract_size cj (some meta)

  abbrev pub meta_share : BlockId → Option cj.Item → ℕ
  meta_share b none = 0
  meta_share b (some meta) = share b (block_of meta) (size_of meta)

  abbrev pub size_sum : BlockId → List cj.Item → ℕ
  size_sum b [] = 0
  size_sum b (obj ∷ objs) = meta_share b (cj.get_item obj (codes "_meta")) + size_sum b objs

  -- An id and a size that are numbers, and a size of 16 bits.
  abbrev pub HasSize : Option cj.Item → Type 0
  HasSize none = Unit
  HasSize (some meta) =
      (is_number_item cj (cj.get_item meta (codes "id")) ≡ true)
      × (is_number_item cj (cj.get_item meta (codes "size")) ≡ true)
      × (int_of cj (cj.get_item meta (codes "size")) ≡ pos (size_of meta))

  abbrev pub HaveSizes : List cj.Item → Type 0
  HaveSizes [] = Unit
  HaveSizes (obj ∷ objs) = HasSize (cj.get_item obj (codes "_meta")) × HaveSizes objs

add-zero_ℤ : (a : ℤ) → a ≡ a +ℤ pos 0
add-zero_ℤ a = omega int_laws

pub add_twice : (a : ℤ) (m n : ℕ) → a +ℤ pos m +ℤ pos n ≡ a +ℤ pos (m + n)
add_twice a m n = omega int_laws

-- One file more in a block.
add_file-alloc :
    (b c : BlockId) (n : ℕ) (stock : Bool) (h : FsHeader)
    → (usage_of b (with_usage c (add_file (pos n) stock (usage_of c h)) h)).alloc
      ≡ (usage_of b h).alloc +ℤ pos (share b c n)
unfolding add_file
add_file-alloc gfb gfb n stock h = refl
add_file-alloc gfb iss n stock h = add-zero_ℤ _
add_file-alloc gfb isf n stock h = add-zero_ℤ _
add_file-alloc iss gfb n stock h = add-zero_ℤ _
add_file-alloc iss iss n stock h = refl
add_file-alloc iss isf n stock h = add-zero_ℤ _
add_file-alloc isf gfb n stock h = add-zero_ℤ _
add_file-alloc isf iss n stock h = add-zero_ℤ _
add_file-alloc isf isf n stock h = refl

abbrev pub IsCounted : Usage → Type 0
IsCounted u = u.used ≤ u.files

add_file-IsCounted :
    (b c : BlockId) (z : ℤ) (stock : Bool) (h : FsHeader)
    → IsCounted (usage_of b h)
    → IsCounted (usage_of b (with_usage c (add_file z stock (usage_of c h)) h))
unfolding add_file
add_file-IsCounted gfb gfb z stock h k = ground arith
add_file-IsCounted iss iss z stock h k = ground arith
add_file-IsCounted isf isf z stock h k = ground arith
add_file-IsCounted gfb iss z stock h k = k
add_file-IsCounted gfb isf z stock h k = k
add_file-IsCounted iss gfb z stock h k = k
add_file-IsCounted iss isf z stock h k = k
add_file-IsCounted isf gfb z stock h k = k
add_file-IsCounted isf iss z stock h k = k

-- What the check makes of a header: sizes added in their blocks, and no more used files than files.
pub record Counts (h : FsHeader) (n : BlockId → ℕ) (c : Checked) : Type 0 where
  pub header : FsHeader
  pub result : c ≡ counted header
  pub sizes : (b : BlockId) → (usage_of b header).alloc ≡ (usage_of b h).alloc +ℤ pos (n b)
  pub kept : (b : BlockId) → IsCounted (usage_of b h) → IsCounted (usage_of b header)

module _ (cj : Cjson)
    (plain : (e : cj.Item) → cj.is_string e ≡ false → cj.valuestring e ≡ none) where
  checked_block-eq : (o : Option cj.Item) → checked_block cj o ≡ blockid cj o
  unfolding checked_block blockid block_named text_of
  checked_block-eq none = refl
  checked_block-eq (some e) =
      if-both (λ n. n ≡ blockid cj (some e)) (cj.is_string e) _ _ (λ _. refl)
        (λ no_text. rw (plain e no_text) refl)

  count_object-Counts :
      (o : Option cj.Item) (h : FsHeader)
      → HasSize cj o
      → Counts h (λ b. meta_share cj b o) (count_object cj o h)
  unfolding count_object count_meta extract_blockid member
  count_object-Counts none h k = record {
    header = h;
    result = refl;
    sizes = λ b. add-zero_ℤ _;
    kept = λ b c. c;
  }
  count_object-Counts (some meta) h (has_id, has_size, size) =
      let b = block_of cj meta in
      let stock = is_stock cj (cj.get_item meta (codes "stock")) in
      let u = add_file (pos (size_of cj meta)) stock (usage_of b h) in
      record {
        header = with_usage b u h;
        result =
            rw (has_id, has_size, size, checked_block-eq (cj.get_item meta (codes "block"))) refl;
        sizes = λ a. add_file-alloc a b (size_of cj meta) stock h;
        kept = λ a. add_file-IsCounted a b (pos (size_of cj meta)) stock h;
      }

  pub count_files-Counts :
      (objs : List cj.Item) (h : FsHeader)
      → HaveSizes cj objs
      → Counts h (λ b. size_sum cj b objs) (count_files cj objs h)
  unfolding count_files
  count_files-Counts [] h k = record {
    header = h;
    result = refl;
    sizes = λ b. add-zero_ℤ _;
    kept = λ b c. c;
  }
  count_files-Counts (obj ∷ objs) h (k, ks) =
      let one = count_object-Counts (cj.get_item obj (codes "_meta")) h k in
      let more = count_files-Counts objs one.header ks in
      record {
        header = more.header;
        result = rw one.result more.result;
        sizes = λ b.
            more.sizes b
            ∙ (ap (λ z. z +ℤ pos (size_sum cj b objs)) (one.sizes b)
                ∙ add_twice _ (meta_share cj b (cj.get_item obj (codes "_meta")))
                    (size_sum cj b objs));
        kept = λ b c. more.kept b (one.kept b c);
      }
