-- ===== src/OpenLoad/Tests.antt =====
-- A template of two files on the small JSON library.
use otdb.Base.{
  List, ℕ, arith, ◌++◌, ◌^◌, ◌<◌, ◌≤◌, ◌↔◌, true, min, ◌+◌, ◌*◌, ◌≡◌, refl, [], ◌∷◌, false, some,
  none,
}
use otdb.Base.Int.{pos, ◌+ℤ◌}
use otdb.Otfs.{File}
use otdb.Text.{codes, show_hex, strtoull}
use otdb.Args.{BlockId, low_bits}
use otdb.Cjson.Toy.{
  Named, Json, number, text, boolean, object, array, end, field, toy_json, toy_floats,
}
use otdb.JsonTools.{
  content_array, int_of, member, extract_int, extract_id, text_of, block_named, blockid,
  extract_blockid, extract_size,
}
use otdb.OpenLoad.{
  FsHeader, usage_of, table_of, Tables, Entry, zero_entry, build_template, built, after_check,
  count_files, count_object, count_meta, is_number_item, is_stock, checked_block, add_file,
  block_start, derive_bases, set_bases, ftab_alloc, place_files, place_object, place_meta,
  write_entry, meta_mod, meta_time,
}
use otdb.OpenLoad.Contents.{default_content}
use otdb.OpenLoad.Contents.Inside.{IsInside, default_content-IsInside}
use otdb.OpenLoad.DataFile.{Volume, FileMeta, merge_content}
use otdb.OpenLoad.DataFile.Merge.{merge_file}
use otdb.OpenLoad.DataFile.Arrays.{merge_file-IsInside}
use otdb.OpenLoad.Devices.{is_hex_name, device_path}
use otdb.OpenLoad.Devices.Paths.{device_path-show_hex}
use otdb.OpenLoad.Counts.{HaveSizes}
use otdb.OpenLoad.Layout.{IsLaid, build_template-IsLaid}

abbrev file_of : ℕ → ℕ → Json
file_of id size = object (
    field (codes "_meta")
      (object (field (codes "id") (number (pos id)) (field (codes "size") (number (pos size)) end)))
      end)

abbrev two_numbers : Named
two_numbers = ([], array (field [] (number (pos 300)) (field [] (number (pos 2)) end)))

abbrev short_file : File
short_file = record { start = 0; alloc = 3; length = 2; idmod = 0 }

abbrev two_files : Named
two_files =
    ([], object (field (codes "first") (file_of 0 16) (field (codes "second") (file_of 1 8) end)))

abbrev laid_entry : ℕ → ℕ → ℕ → Entry
laid_entry base id alloc = record zero_entry {
  base = pos base;
  alloc = alloc;
  idmod = id + 256 * 52;
  modtime = 7;
  mirror = 65535;
}

-- The second file lies behind the first.
template_runs :
    build_template toy_json 40 20 7 (some two_files)
    ≡ built
        (record {
          gfb_usage = record { alloc = pos 0; used = 0; files = 0 };
          iss_usage = record { alloc = pos 0; used = 0; files = 0 };
          isf_usage = record { alloc = pos 24; used = 2; files = 2 };
        })
        (record {
          gfb_files = [];
          iss_files = [];
          isf_files = laid_entry 80 0 16 ∷ (laid_entry 96 1 8 ∷ []);
        })
unfolding build_template after_check count_files count_object count_meta is_number_item is_stock
    checked_block add_file int_of derive_bases set_bases block_start ftab_alloc place_files
    place_object place_meta write_entry extract_id extract_size extract_int member low_bits
    extract_blockid blockid text_of block_named meta_mod meta_time ◌+ℤ◌
template_runs = refl

text_only : (e : Named) → toy_json.is_string e ≡ false → toy_json.valuestring e ≡ none
text_only (name, number n) h = refl
text_only (name, text s) h = cc
text_only (name, boolean b) h = refl
text_only (name, object fs) h = refl
text_only (name, array fs) h = refl

both_sized : HaveSizes toy_json (toy_json.children two_files)
unfolding is_number_item int_of extract_size extract_int member low_bits
both_sized = ((refl, refl, refl), ((refl, refl, refl), tt))

build_template-IsLaid_example :
    (h : FsHeader) × (t : Tables) × (build_template toy_json 40 20 7 (some two_files) ≡ built h t)
    × ((b : BlockId)
        → IsLaid
            (block_start 40 20 h b +ℤ (usage_of b h).alloc)
            (block_start 40 20 h b)
            (usage_of b h).used
            (table_of b t))
build_template-IsLaid_example =
    build_template-IsLaid toy_json text_only 40 20 7 two_files both_sized

-- The item of an array is cut to a byte, and the second one does not fit the allocation.
default_content-IsInside_example :
    IsInside 1 1 (5 ∷ (6 ∷ (7 ∷ []))) (
      default_content toy_json toy_floats content_array 1 1 (some two_numbers) (5 ∷ (6 ∷ (7 ∷ []))))
default_content-IsInside_example =
    default_content-IsInside toy_json toy_floats content_array 1 1 (some two_numbers)
      (5 ∷ (6 ∷ (7 ∷ []))) (λ e. cc) (omega arith)

-- A filesystem that is its memory; a file that is closed leaves its length behind.
abbrev flat : Volume
flat = record {
  Db = List ℕ;
  open_su = λ i db. (none, db);
  open_rw = λ b i db. (none, db);
  memptr = λ f db. some 1;
  memory = λ db. db;
  with_memory = λ m db. m;
  setmodtime = λ f t db. db;
  close = λ f db. db;
}

abbrev array_meta : FileMeta
array_meta = record { block = 3; fileid = 2; ctype = content_array; size = 9; modtime = 5 }

abbrev two_named : Named
two_named =
    ([], object (field (codes "a") (number (pos 300)) (field (codes "b") (number (pos 2)) end)))

-- Of a file of three bytes, two are in use before an object of two numbers is merged.
merge_file-IsInside_example :
    (r : IsInside 1 3 (5 ∷ (6 ∷ (7 ∷ (8 ∷ [])))) (
      merge_content toy_json toy_floats content_array 1
        (min 3 9)
        short_file
        two_named
        two_named
        (5 ∷ (6 ∷ (7 ∷ (8 ∷ []))))))
    × (2 ≤ r.len)
    × (merge_file toy_json toy_floats flat array_meta short_file
          (some 1)
          two_named
          two_named
          (5 ∷ (6 ∷ (7 ∷ (8 ∷ []))))
        ≡ some r.after)
merge_file-IsInside_example =
    merge_file-IsInside toy_json toy_floats flat array_meta short_file 1 two_named two_named
      (5 ∷ (6 ∷ (7 ∷ (8 ∷ [])))) refl refl (omega arith) (omega arith) (omega arith)

device_path-show_hex_example :
    (is_hex_name (show_hex 0x1234567890abcdef) ≡ true)
    × (strtoull (show_hex 0x1234567890abcdef) 16 ≡ 0x1234567890abcdef)
    × ((device_path (show_hex 0x1234567890abcdef) ≡ codes "/" ++ show_hex 0x1234567890abcdef)
        ↔ (0x1234567890abcdef < 2 ^ 56))
device_path-show_hex_example = device_path-show_hex 0x1234567890abcdef (omega arith)
