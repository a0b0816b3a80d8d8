-- ===== src/OpenLoad/Open/Tests.antt =====
-- cmd_open on a template of one array, with small libraries.
use otdb.Base.{ℕ, ◌≡◌, refl, [], true, false, some, none, length, arith}
use otdb.Base.Int.{ℤ, pos, negsuc, ◌+ℤ◌, ◌≤ℤ◌, pos_part}
use otdb.Text.{codes}
use otdb.Args.{isf}
use otdb.Cjson.Toy.{Named, number, text, boolean, object, array, end, field, toy_json, toy_floats}
use otdb.JsonTools.{int_of, extract_size, extract_int, member}
use otdb.Args.{low_bits}
use otdb.OpenLoad.{FsHeader, block_start, is_number_item, meta_type}
use otdb.OpenLoad.Counts.{HaveSizes}
use otdb.OpenLoad.DataFile.{Volume}
use otdb.OpenLoad.Devices.{Archives}
use otdb.OpenLoad.Open.{no_size}
use otdb.OpenLoad.Open.Command.{TemplateFs, OpenSetup, open_template, open_archive}
use otdb.OpenLoad.Open.Held.{AreHeld, AreFlat}
use otdb.OpenLoad.Open.Whole.{open_template-AreHeld}

abbrev one_array : Named
one_array = (
  [],
  object (
      field (codes "numbers")
        (object (
          field (codes "_meta")
            (object
              (field (codes "id") (number (pos 0)) (field (codes "size") (number (pos 2)) end)))
            (field (codes "_content") (array (field [] (number (pos 300)) end)) end)))
        end),
)

-- A filesystem without files, whose database is a number.
abbrev no_volume : Volume
no_volume = record {
  Db = ℕ;
  open_su = λ id db. (none, db);
  open_rw = λ block id db. (none, db);
  memptr = λ fp db. none;
  memory = λ db. [];
  with_memory = λ mem db. db;
  setmodtime = λ fp time db. db;
  close = λ fp db. db;
}

abbrev no_archives : Archives toy_json
no_archives = record { archive_dir = λ path. none; device_dir = λ path. none }

abbrev alloc_of : FsHeader → ℕ
alloc_of h = pos_part (block_start 40 20 h isf +ℤ h.isf_usage.alloc)

abbrev setup : OpenSetup toy_json no_volume
setup = record {
  template_dir = λ path. none;
  init = (pos 0, 7);
  init_errcode = λ rc. rc;
  fsheader_size = 40;
  header_size = 20;
  get_fsalloc = alloc_of;
  memory_left = true;
  database = λ fs. record {
    setfs = λ uid db. (pos 0, db);
    new_fs = λ uid db. (pos 0, db);
    del_fs = λ uid db. db;
    errcode = λ rc. rc;
    memory_left = λ db. true;
  };
  copy_template = λ tmpl. no_size;
  deinit = λ db. pos 0;
  deinit_errcode = λ rc. rc;
}

covered : (a : ℤ) → a ≤ℤ pos (pos_part a)
covered (pos n) = omega arith
covered (negsuc n) = omega arith

text_only : (e : Named) → toy_json.is_string e ≡ false → toy_json.valuestring e ≡ none
text_only (name, number n) h = refl
text_only (name, text s) h = cc
text_only (name, boolean b) h = refl
text_only (name, object fs) h = refl
text_only (name, array fs) h = refl

array-HaveSizes : HaveSizes toy_json (toy_json.children one_array)
unfolding is_number_item int_of extract_size extract_int member low_bits
array-HaveSizes = ((refl, refl, refl), tt)

array-AreFlat : AreFlat toy_json toy_floats (toy_json.children one_array)
unfolding meta_type
array-AreFlat = ((λ e. cc), tt)

open_template-AreHeld_example :
    (fs : TemplateFs) × (open_template toy_json toy_floats no_volume setup no_archives 7 []
        (some one_array)
      ≡ open_archive toy_json toy_floats no_volume setup no_archives 7 [] one_array fs 7)
    × (length fs.memory ≡ alloc_of fs.header)
    × AreHeld (length fs.memory) fs.header fs.tables
open_template-AreHeld_example =
    open_template-AreHeld toy_json toy_floats no_volume setup no_archives 7 [] one_array 7 text_only
      (λ h. covered (block_start 40 20 h isf +ℤ h.isf_usage.alloc)) refl refl array-HaveSizes
      array-AreFlat
