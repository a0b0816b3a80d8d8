-- ===== src/OpenLoad/Open/Whole.antt =====
-- From a template to the template's filesystem, in cmd_open of main/cmd_open_load.c.
use mathlib.Core.Path.{subst}
use otdb.Base.{
  ℕ, zero, suc, ◌+◌, ◌≤◌, ◌≡◌, ◌∙◌, refl, sym, List, [], ◌∷◌, true, false, none, some, length,
  replicate, arith, length-replicate,
}
use otdb.Base.Int.{ℤ, pos, negsuc, ◌+ℤ◌, ◌≤ℤ◌, int_laws}
use otdb.Args.{BlockId, gfb, iss, isf}
use otdb.Cjson.{Cjson, Floats}
use otdb.OpenLoad.{FsHeader, Entry, Tables, usage_of, table_of, block_start, build_template}
use otdb.OpenLoad.Counts.{HaveSizes}
use otdb.OpenLoad.Layout.{IsLaid, build_template-IsLaid}
use otdb.OpenLoad.DataFile.{Volume}
use otdb.OpenLoad.Devices.{Archives}
use otdb.OpenLoad.Open.Command.{
  TemplateFs, OpenSetup, open_template, open_built, open_tables, open_filled, open_archive,
}
use otdb.OpenLoad.Open.Empty.{AreEmpty, AllEmpty, table-AreEmpty, after_check-AllEmpty}
use otdb.OpenLoad.Open.Held.{IsHeld, AreHeld, AreFlat, fill_files-IsFilled}

-- Where the files lie one behind the other, they lie in a memory that reaches to where they end.
IsLaid-le : (hi lo : ℤ) (used : ℕ) (ts : List Entry) → IsLaid hi lo used ts → lo ≤ℤ hi
IsLaid-le hi lo zero ts h = h
IsLaid-le hi lo (suc used) [] h = absurd h
IsLaid-le hi lo (suc used) (t ∷ ts) h =
    let rest = IsLaid-le hi (lo +ℤ pos t.alloc) used ts h.1 in omega (int_laws, rest)

pos_add : (m n : ℕ) → pos m +ℤ pos n ≡ pos (m + n)
pos_add m n = omega int_laws

IsLaid-IsHeld :
    (m l : ℕ) (hi : ℤ) (used : ℕ) (ts : List Entry)
    → IsLaid hi (pos l) used ts
    → hi ≤ℤ pos m
    → AreEmpty ts
    → IsHeld m used ts
IsLaid-IsHeld m l hi zero ts h k e = tt
IsLaid-IsHeld m l hi (suc used) [] h k e = absurd h
IsLaid-IsHeld m l hi (suc used) (t ∷ ts) h k e =
    let below = IsLaid-le hi (pos l +ℤ pos t.alloc) used ts h.1 in
    let room : l + t.alloc ≤ m = omega (int_laws, below) in
    (
      record { begin = l; based = h.0; room = room; short = omega (arith, e.0) },
      IsLaid-IsHeld m (l + t.alloc) hi used ts
          (subst (λ lo. IsLaid hi lo used ts) (pos_add l t.alloc) h.1) k e.1,
    )

not_negative : (a : ℤ) → pos 0 ≤ℤ a → (n : ℕ) × (a ≡ pos n)
not_negative (pos n) h = (n, refl)
not_negative (negsuc n) h = absurd (omega int_laws)

-- The three blocks follow each other in the filesystem.
module _ (m n size : ℕ) (h : FsHeader) where
  abbrev start : BlockId → ℤ
  start b = block_start m n h b

  abbrev end : BlockId → ℤ
  end b = start b +ℤ (usage_of b h).alloc

  blocks_ordered :
      ((b : BlockId) → start b ≤ℤ end b)
      → end isf ≤ℤ pos size
      → (b : BlockId) → (pos 0 ≤ℤ start b) × (end b ≤ℤ pos size)
  unfolding block_start
  blocks_ordered above fits gfb =
      let (i, j) : (start iss ≤ℤ end iss) × (start isf ≤ℤ end isf) = (above iss, above isf) in
      (omega int_laws, omega (int_laws, i, j))
  blocks_ordered above fits iss =
      let (i, j) : (start gfb ≤ℤ end gfb) × (start isf ≤ℤ end isf) = (above gfb, above isf) in
      (omega (int_laws, i), omega (int_laws, j))
  blocks_ordered above fits isf =
      let (i, j) : (start gfb ≤ℤ end gfb) × (start iss ≤ℤ end iss) = (above gfb, above iss) in
      (omega (int_laws, i, j), fits)

  laid-AreHeld :
      (t : Tables)
      → ((b : BlockId) → IsLaid (end b) (start b) (usage_of b h).used (table_of b t))
      → end isf ≤ℤ pos size
      → AllEmpty t
      → AreHeld size h t
  laid-AreHeld t laid fits empty b =
      let above : (c : BlockId) → start c ≤ℤ end c =
        λ c. IsLaid-le (end c) (start c) (usage_of c h).used (table_of c t) (laid c) in
      let bounds = blocks_ordered above fits b in
      let (l, e) = not_negative (start b) bounds.0 in
      IsLaid-IsHeld size l (end b) (usage_of b h).used (table_of b t)
        (subst (λ lo. IsLaid (end b) lo (usage_of b h).used (table_of b t)) e (laid b)) bounds.1
        (table-AreEmpty t b empty)

-- On a JSON library where only a text has a `valuestring`, with a get_fsalloc that covers where the last
-- block ends, an otfs_init that succeeds, and memory: a template whose objects have metadata with an id
-- and a size that are numbers, the size of 16 bits, and none of which is a struct, brings cmd_open to the
-- device directories, with a filesystem of the size of get_fsalloc in which the allocation of every
-- stock file lies, and each has a length that is at most its allocation.
pub open_template-AreHeld :
    (cj : Cjson) (fl : Floats) (vol : Volume) (s : OpenSetup cj vol) (disk : Archives cj) (now : ℕ)
    (root : List ℕ) (tmpl : cj.Item) (db : vol.Db)
    (plain : (e : cj.Item) → cj.is_string e ≡ false → cj.valuestring e ≡ none)
    (covers : (h : FsHeader)
      → (block_start s.fsheader_size s.header_size h isf +ℤ h.isf_usage.alloc)
        ≤ℤ pos (s.get_fsalloc h))
    → s.init ≡ (pos 0, db)
    → s.memory_left ≡ true
    → HaveSizes cj (cj.children tmpl)
    → AreFlat cj fl (cj.children tmpl)
    → (fs : TemplateFs) × (open_template cj fl vol s disk now root (some tmpl)
        ≡ open_archive cj fl vol s disk now root tmpl fs db)
      × (length fs.memory ≡ s.get_fsalloc fs.header)
      × AreHeld (length fs.memory) fs.header fs.tables
unfolding open_template open_built open_tables open_filled build_template
open_template-AreHeld cj fl vol s disk now root tmpl db plain covers init memory sizes flat =
    let m = s.fsheader_size in
    let n = s.header_size in
    let (h, t, checked, laid) = build_template-IsLaid cj plain m n now tmpl sizes in
    let size = s.get_fsalloc h in
    let zeros = replicate size 0 in
    let empty = after_check-AllEmpty cj m n now (cj.children tmpl) _ h t checked in
    let zeros_size : length zeros ≡ size = length-replicate size 0 in
    let held : AreHeld (length zeros) h t =
      subst (λ k. AreHeld k h t) (sym zeros_size)
        (laid-AreHeld m n size h t laid (covers h) empty) in
    let filled = fill_files-IsFilled cj fl h (cj.children tmpl) t zeros flat held in
    let fs : TemplateFs = record { header = h; tables = filled.tables; memory = filled.memory } in
    (
      fs,
      rw (checked, init, memory, filled.result) refl,
      filled.size ∙ zeros_size,
      subst (λ k. AreHeld k h filled.tables) (sym filled.size) filled.held,
    )
