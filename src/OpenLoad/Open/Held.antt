-- ===== src/OpenLoad/Open/Held.antt =====
-- The default contents of a whole template, in cmd_open of main/cmd_open_load.c.
use mathlib.Core.Path.{subst}
use otdb.Base.{
  ℕ, zero, suc, ◌+◌, ◌<◌, ◌≤◌, ◌≡◌, ◌≢◌, refl, sym, ap, List, [], ◌∷◌, Option, none, some, length,
  arith, ltb,
}
use otdb.Base.Branch.{if-both}
use otdb.Base.Int.{pos}
use otdb.Text.{codes}
use otdb.Args.{BlockId, gfb, iss, isf}
use otdb.Cjson.{Cjson, Floats}
use otdb.JsonTools.{ContentType, content_struct, extract_id, extract_blockid}
use otdb.OpenLoad.{FsHeader, Entry, Tables, usage_of, table_of, with_table, block_case, meta_type}
use otdb.OpenLoad.Contents.{default_content}
use otdb.OpenLoad.Contents.Inside.{IsInside, default_content-IsInside}
use otdb.OpenLoad.Open.{
  entry_at, set_length, FilledTables, with_contents, contents_at, fill_entry, fill_meta,
  fill_object, fill_files,
}

-- The allocation of the file lies in a memory of `m` bytes, and its length is at most the allocation.
pub record IsWithin (m : ℕ) (e : Entry) : Type 0 where
  pub begin : ℕ
  pub based : e.base ≡ pos begin
  pub room : begin + e.alloc ≤ m
  pub short : e.length ≤ e.alloc

-- The first `used` files do.
abbrev pub IsHeld : ℕ → ℕ → List Entry → Type 0
IsHeld m zero ts = Unit
IsHeld m (suc used) [] = ⊥
IsHeld m (suc used) (t ∷ ts) = IsWithin m t × IsHeld m used ts

abbrev pub AreHeld : ℕ → FsHeader → Tables → Type 0
AreHeld m h t = (b : BlockId) → IsHeld m (usage_of b h).used (table_of b t)

entry_at-IsWithin :
    (m used id : ℕ) (ts : List Entry)
    → IsHeld m used ts
    → id < used
    → (e : Entry) × (entry_at id ts ≡ some e) × IsWithin m e
unfolding entry_at
entry_at-IsWithin m zero id ts h k = absurd (omega arith)
entry_at-IsWithin m (suc used) id [] h k = absurd h
entry_at-IsWithin m (suc used) zero (t ∷ ts) h k = (t, refl, h.0)
entry_at-IsWithin m (suc used) (suc id) (t ∷ ts) h k =
    entry_at-IsWithin m used id ts h.1 (omega arith)

abbrev alloc_or : ℕ → Option Entry → ℕ
alloc_or n none = n
alloc_or n (some e) = e.alloc

set_length-IsHeld :
    (m used id len : ℕ) (ts : List Entry) (e : Entry)
    → IsHeld m used ts
    → entry_at id ts ≡ some e
    → len ≤ e.alloc
    → IsHeld m used (set_length id len ts)
unfolding entry_at set_length
set_length-IsHeld m zero id len ts e h at l = tt
set_length-IsHeld m (suc used) id len [] e h at l = absurd h
set_length-IsHeld m (suc used) zero len (t ∷ ts) e h at l =
    let short : len ≤ t.alloc = omega (arith, ap (alloc_or len) at) in
    (record { begin = h.0.begin; based = h.0.based; room = h.0.room; short = short }, h.1)
set_length-IsHeld m (suc used) (suc id) len (t ∷ ts) e h at l =
    (h.0, set_length-IsHeld m used id len ts e h.1 at l)

-- Writing one table.
with_table-AreHeld :
    (m : ℕ) (h : FsHeader) (t : Tables) (b : BlockId) (l : List Entry)
    → AreHeld m h t
    → IsHeld m (usage_of b h).used l
    → AreHeld m h (with_table b l t)
with_table-AreHeld m h t gfb l a k gfb = k
with_table-AreHeld m h t gfb l a k iss = a iss
with_table-AreHeld m h t gfb l a k isf = a isf
with_table-AreHeld m h t iss l a k gfb = a gfb
with_table-AreHeld m h t iss l a k iss = k
with_table-AreHeld m h t iss l a k isf = a isf
with_table-AreHeld m h t isf l a k gfb = a gfb
with_table-AreHeld m h t isf l a k iss = a iss
with_table-AreHeld m h t isf l a k isf = k

-- The files are all filled, in a memory of the size before.
pub record IsFilled (m : ℕ) (h : FsHeader) (r : FilledTables) : Type 0 where
  pub tables : Tables
  pub memory : List ℕ
  pub result : r ≡ some (tables, memory)
  pub size : length memory ≡ m
  pub held : AreHeld m h tables

module _ (cj : Cjson) (fl : Floats) where
  contents_at-IsInside :
      (type : ContentType) (base alloc : ℕ) (content : Option cj.Item) (mem : List ℕ)
      → type ≢ content_struct
      → base + alloc ≤ length mem
      → IsInside base alloc mem (contents_at cj fl type (pos base) alloc content mem)
  unfolding contents_at default_content
  contents_at-IsInside type base alloc none mem n k =
      default_content-IsInside cj fl type base alloc none mem n k
  contents_at-IsInside type base alloc (some content) mem n k =
      default_content-IsInside cj fl type base alloc (some content) mem n k

  fill_entry-IsFilled :
      (h : FsHeader) (b : BlockId) (id : ℕ) (e : Entry) (type : ContentType)
      (content : Option cj.Item) (t : Tables) (mem : List ℕ)
      → AreHeld (length mem) h t
      → entry_at id (table_of b t) ≡ some e
      → IsWithin (length mem) e
      → type ≢ content_struct
      → IsFilled (length mem) h (fill_entry cj fl b id (some e) type content t mem)
  unfolding fill_entry with_contents
  fill_entry-IsFilled h b id e type content t mem held at w n =
      let i = contents_at-IsInside type w.begin e.alloc content mem n w.room in
      record {
        tables = with_table b (set_length id i.len (table_of b t)) t;
        memory = i.after;
        result = rw (w.based, i.result) refl;
        size = i.size;
        held = with_table-AreHeld (length mem) h t b (set_length id i.len (table_of b t)) held (
            set_length-IsHeld (length mem) (usage_of b h).used id i.len (table_of b t) e (held b) at
              i.fits);
      }

  kept :
      (h : FsHeader) (t : Tables) (mem : List ℕ)
      → AreHeld (length mem) h t
      → IsFilled (length mem) h (some (t, mem))
  kept h t mem held = record { tables = t; memory = mem; result = refl; size = refl; held = held }

  fill_meta-IsFilled :
      (h : FsHeader) (meta : cj.Item) (content : Option cj.Item) (t : Tables) (mem : List ℕ)
      → meta_type cj meta ≢ content_struct
      → AreHeld (length mem) h t
      → IsFilled (length mem) h (fill_meta cj fl h meta content t mem)
  unfolding fill_meta
  fill_meta-IsFilled h meta content t mem n held =
      let id = extract_id cj (some meta) in
      let b = block_case (extract_blockid cj (some meta)) in
      if-both (IsFilled (length mem) h) (ltb id (usage_of b h).used) _ _
        (λ below.
          let (e, at, w) =
            entry_at-IsWithin (length mem) (usage_of b h).used id (table_of b t) (held b)
              (ground arith) in
          rw at (fill_entry-IsFilled h b id e (meta_type cj meta) content t mem held at w n))
        (λ above. kept h t mem held)

  -- No file of the template is a struct.
  abbrev IsFlat : Option cj.Item → Type 0
  IsFlat none = Unit
  IsFlat (some meta) = meta_type cj meta ≢ content_struct

  abbrev pub AreFlat : List cj.Item → Type 0
  AreFlat [] = Unit
  AreFlat (obj ∷ objs) = IsFlat (cj.get_item obj (codes "_meta")) × AreFlat objs

  fill_object-IsFilled :
      (h : FsHeader) (meta content : Option cj.Item) (t : Tables) (mem : List ℕ)
      → IsFlat meta
      → AreHeld (length mem) h t
      → IsFilled (length mem) h (fill_object cj fl h meta content t mem)
  unfolding fill_object
  fill_object-IsFilled h none content t mem n held = kept h t mem held
  fill_object-IsFilled h (some meta) content t mem n held =
      fill_meta-IsFilled h meta content t mem n held

  -- Where every stock file of the table lies in the memory and no file of the template is a struct: the
  -- default contents of all files are written without an access outside the memory, which keeps its
  -- size, and afterwards every stock file still lies in it, with a length that is at most its
  -- allocation.
  pub fill_files-IsFilled :
      (h : FsHeader) (objs : List cj.Item) (t : Tables) (mem : List ℕ)
      → AreFlat objs
      → AreHeld (length mem) h t
      → IsFilled (length mem) h (fill_files cj fl h objs t mem)
  unfolding fill_files
  fill_files-IsFilled h [] t mem n held = kept h t mem held
  fill_files-IsFilled h (obj ∷ objs) t mem n held =
      let meta = cj.get_item obj (codes "_meta") in
      let i = fill_object-IsFilled h meta (cj.get_item obj (codes "_content")) t mem n.0 held in
      let rest =
        fill_files-IsFilled h objs i.tables i.memory n.1
          (subst (λ m. AreHeld m h i.tables) (sym i.size) i.held) in
      rw (fill_files, i.result)
        (subst (λ m. IsFilled m h (fill_files cj fl h objs i.tables i.memory)) i.size rest)
