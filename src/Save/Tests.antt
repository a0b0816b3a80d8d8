-- ===== src/Save/Tests.antt =====
-- Concrete exports.
use otdb.Base.Int.{pos, negsuc}
use otdb.Base.{ℕ, List, none, take, drop, arith, ◌≡◌, refl, [], ◌∷◌, some}
use otdb.Text.{codes, show_dec, show_loop, digit_char}
use otdb.Cjson.Toy.{Named, number, text, object, field, end, toy_json, toy_floats}
use otdb.JsonTools.{extract_string, string_of, member, extract_pos, extract_int, int_of}
use otdb.JsonTools.Elements.{Added}
use otdb.JsonTools.Elements.Integers.{int16}
use otdb.OpenLoad.DataFile.{merge_element}
use otdb.Save.Merged.{export-merge_element}
use otdb.Save.{
  export_element, file_path, export_hex, export_array, outside, exported, array_contents,
}
use otdb.Save.Archive.{with_slash}

-- A name of 23 bytes loses the end of its extension.
file_path_runs :
    (file_path 7 (codes "config") ≡ codes "/7-config.json")
    × (file_path 7 (codes "a_name_of_the_23rd_size") ≡ codes "/7-a_name_of_the_23rd_size.jso")
unfolding file_path show_dec show_loop digit_char
file_path_runs = (refl, refl)

with_slash_runs :
    (with_slash (codes "out") ≡ some (codes "out/")) × (with_slash (codes "o/") ≡ some (codes "o/"))
unfolding with_slash
with_slash_runs = (refl, refl)

-- The terminator of a longer file lies outside the string for the template's size.
export_runs :
    (export_hex 6 2 (1 ∷ (171 ∷ (3 ∷ []))) ≡ outside)
    × (export_array 2 (1 ∷ (171 ∷ (3 ∷ []))) ≡ exported (array_contents (1 ∷ (171 ∷ []))))
unfolding export_hex export_array
export_runs = (refl, refl)

-- A flat element of a template.
abbrev int_element : Named
int_element = (
  codes "level",
  object (field (codes "type") (text (codes "int16_t")) (field (codes "pos") (number (pos 1)) end)),
)

abbrev minus_two : Named
minus_two = (codes "level", number (negsuc 1))

abbrev six_bytes : List ℕ
six_bytes = 9 ∷ (8 ∷ (7 ∷ (6 ∷ (5 ∷ (4 ∷ [])))))

int_type : extract_string toy_json (some int_element) (codes "type") ≡ some (codes "int16_t")
unfolding extract_string string_of member
int_type = refl

int_pos : extract_pos toy_json (some int_element) ≡ pos 1
unfolding extract_pos extract_int int_of member
int_pos = refl

export-merge_element_example :
    (mem1 : List ℕ) × (merge_element toy_json toy_floats 1 4 int_element minus_two none none
        six_bytes
      ≡ some (mem1, pos 3))
    × (export_element toy_json toy_floats 1 int_element mem1
        ≡ some (record {
          name = codes "level";
          value = Added.number (toy_floats.of_int (negsuc 1));
          nested = [];
        }))
    × (take 2 mem1 ≡ take 2 six_bytes)
    × (drop 4 mem1 ≡ drop 4 six_bytes)
export-merge_element_example =
    export-merge_element toy_json toy_floats int16 1 4 1 int_element minus_two none six_bytes
      int_type int_pos refl refl refl (omega arith) (omega arith) (omega arith) (omega arith)
