-- ===== src/OpenLoad/Contents/Inside.antt =====
-- The default contents that are no structs stay in their file, in cmd_open of main/cmd_open_load.c.
use otdb.Base.{
  ℕ, zero, suc, ◌+◌, ◌-◌, ◌≤◌, ◌≡◌, ◌≢◌, ◌∙◌, refl, ap, List, [], ◌∷◌, ◌++◌, true, Option, none,
  some, length, take, drop, leb, arith, length-take, length-append, length-drop,
}
use otdb.Base.Branch.{if-both}
use otdb.Base.Splice.{drop-drop, take_prefix, drop_prefix}
use otdb.Hex.{hexnread}
use otdb.Hex.Bounds.{length-hexnread}
use otdb.Cjson.{Cjson, Floats}
use otdb.JsonTools.{ContentType, content_hex, content_array, content_struct}
use otdb.JsonTools.Elements.{put}
use otdb.OpenLoad.Contents.{
  put_in, array_bytes, Filled, with_length, default_array, default_hex, default_content,
}

-- The contents are there, the length is at most the allocation, the memory keeps its size, and all bytes outside the allocation are
-- as they were.
pub record IsInside (base alloc : ℕ) (mem : List ℕ) (r : Filled) : Type 0 where
  pub after : List ℕ
  pub len : ℕ
  pub result : r ≡ some (after, len)
  pub fits : len ≤ alloc
  pub size : length after ≡ length mem
  pub before : take base after ≡ take base mem
  pub behind : drop (base + alloc) after ≡ drop (base + alloc) mem

pub length-array_bytes : (cj : Cjson) (n : ℕ) (is : List cj.Item) → length (array_bytes cj n is) ≤ n
unfolding array_bytes
length-array_bytes cj zero is = omega arith
length-array_bytes cj (suc n) [] = omega arith
length-array_bytes cj (suc n) (i ∷ is) = omega (arith, length-array_bytes cj n is)

length_written :
    (base : ℕ) (bytes mem : List ℕ)
    → base + length bytes ≤ length mem
    → length (take base mem ++ (bytes ++ drop (length bytes) (drop base mem))) ≡ length mem
length_written base bytes mem h =
    let rest = drop (length bytes) (drop base mem) in
    omega (
      arith,
      length-append (take base mem) (bytes ++ rest),
      length-append bytes rest,
      length-take base mem,
      length-drop (length bytes) (drop base mem),
      length-drop base mem,
    )

drop_written :
    (base alloc : ℕ) (bytes mem : List ℕ)
    → length bytes ≤ alloc
    → base + alloc ≤ length mem
    → drop (base + alloc) (take base mem ++ (bytes ++ drop (length bytes) (drop base mem)))
      ≡ drop (base + alloc) mem
drop_written base alloc bytes mem h k =
    let rest = drop (length bytes) (drop base mem) in
    let front : length (take base mem) ≡ base = length-take base mem ∙ omega arith in
    let past : base + alloc - length (take base mem) ≡ alloc = omega (arith, front) in
    drop_prefix (base + alloc) (take base mem) (bytes ++ rest) (omega (arith, front))
    ∙ ap (λ i. drop i (bytes ++ rest)) past
    ∙ drop_prefix alloc bytes rest h
    ∙ drop-drop (alloc - length bytes) (length bytes) (drop base mem)
    ∙ drop-drop (length bytes + (alloc - length bytes)) base mem
    ∙ ap (λ i. drop i mem) (omega arith)

pub put_in-IsInside :
    (base alloc : ℕ) (bytes mem : List ℕ)
    → length bytes ≤ alloc
    → base + alloc ≤ length mem
    → IsInside base alloc mem (with_length (length bytes) (put_in base bytes mem))
unfolding put_in put with_length
put_in-IsInside base alloc bytes mem h k =
    let room : leb (length bytes) (length (drop base mem)) ≡ true =
      ground (arith, length-drop base mem) in
    record {
      after = take base mem ++ (bytes ++ drop (length bytes) (drop base mem));
      len = length bytes;
      result = rw (with_length, room) refl;
      fits = h;
      size = length_written base bytes mem (omega arith);
      before = take_prefix base (take base mem) _ (length-take base mem ∙ omega arith);
      behind = drop_written base alloc bytes mem h k;
    }

unchanged : (base alloc : ℕ) (mem : List ℕ) → IsInside base alloc mem (some (mem, 0))
unchanged base alloc mem = record {
  after = mem;
  len = 0;
  result = refl;
  fits = omega arith;
  size = refl;
  before = refl;
  behind = refl;
}

default_hex-IsInside :
    (cj : Cjson) (fl : Floats) (base alloc : ℕ) (text : Option (List ℕ)) (mem : List ℕ)
    → base + alloc ≤ length mem
    → IsInside base alloc mem (default_hex cj fl base alloc text mem)
unfolding default_hex
default_hex-IsInside cj fl base alloc none mem k = unchanged base alloc mem
default_hex-IsInside cj fl base alloc (some text) mem k =
    put_in-IsInside base alloc (hexnread text alloc) mem (length-hexnread text alloc) k

default_array-IsInside :
    (cj : Cjson) (fl : Floats) (base alloc : ℕ) (content : cj.Item) (mem : List ℕ)
    → base + alloc ≤ length mem
    → IsInside base alloc mem (default_array cj fl base alloc content mem)
unfolding default_array
default_array-IsInside cj fl base alloc content mem k =
    if-both (IsInside base alloc mem) (cj.is_array content) _ _
      (λ e.
        put_in-IsInside base alloc (array_bytes cj alloc (cj.children content)) mem
          (length-array_bytes cj alloc (cj.children content)) k)
      (λ e. unchanged base alloc mem)

-- The default contents of a file that is no struct, whatever they are in the template, are written
-- without an access outside the memory where the allocation of the file lies in it: the length that the
-- file gets is at most its allocation, and every byte in front of the allocation and behind it stays as
-- it was.
pub default_content-IsInside :
    (cj : Cjson) (fl : Floats) (type : ContentType) (base alloc : ℕ) (content : Option cj.Item)
    (mem : List ℕ)
    → type ≢ content_struct
    → base + alloc ≤ length mem
    → IsInside base alloc mem (default_content cj fl type base alloc content mem)
unfolding default_content
default_content-IsInside cj fl type base alloc none mem h k = unchanged base alloc mem
default_content-IsInside cj fl content_struct base alloc (some content) mem h k = absurd (h refl)
default_content-IsInside cj fl content_array base alloc (some content) mem h k =
    default_array-IsInside cj fl base alloc content mem k
default_content-IsInside cj fl content_hex base alloc (some content) mem h k =
    default_hex-IsInside cj fl base alloc _ mem k
