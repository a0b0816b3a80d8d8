-- ===== src/Output.antt =====
-- The reply writers of main/cmds.c: cmd_jsonout_err, cmd_jsonout_fmt, cmd_jsonout_data, over the
-- memory from `dst` on. A cursor is the pointer and the remaining size that they advance.
pub mod Fits
mod Tests
use otdb.Base.{
  ℕ, zero, suc, ◌+◌, ◌-◌, ◌%◌, ◌^◌, List, [], ◌∷◌, ◌++◌, Bool, true, false, length, drop, ◌==◌,
  if◌then◌else◌,
}
use otdb.Base.Int.{ℤ, pos, ◌+ℤ◌}
use otdb.Text.{codes, show_int, show_dec, snprintf}
use otdb.Hex.{hexnwrite}

-- Memory with a run of bytes stored at an offset.
unfoldable pub put_at : ℕ → List ℕ → List ℕ → List ℕ
put_at zero bs mem = bs ++ drop (length bs) mem
put_at (suc k) bs [] = 0 ∷ put_at k bs []
put_at (suc k) bs (m ∷ mem) = m ∷ put_at k bs mem

-- `*dst` as an offset, and `*dstmax`.
pub record Cursor : Type 0 where
  pub mem : List ℕ
  pub at : ℕ
  pub room : ℕ

-- `n - k` of a size_t.
abbrev pub sub_size : ℕ → ℕ → ℕ
sub_size n k = (n + 2 ^ 64 - k % 2 ^ 64) % 2 ^ 64

-- `psize = snprintf(*dst, *dstmax-1, ...)`, and the advance by it.
unfoldable pub print : List ℕ → Cursor → Cursor
print text c = record {
  mem = put_at c.at (snprintf (sub_size c.room 1) text) c.mem;
  at = c.at + length text;
  room = sub_size c.room (length text);
}

-- `psize = cmd_hexnwrite(*dst, src, srcbytes, *dstmax-1)`, and the advance by it.
unfoldable pub print_hex : List ℕ → Cursor → Cursor
print_hex src c =
    let (out, n) = hexnwrite src (sub_size c.room 1) in
    record { mem = put_at c.at out c.mem; at = c.at + n; room = sub_size c.room n }

-- {"type":"otdb", "cmd":"%s", "err":%d}
unfoldable pub err_text : List ℕ → ℤ → List ℕ
err_text cmdname rc =
    codes "{\"type\":\"otdb\", \"cmd\":\""
    ++ (cmdname ++ (codes "\", \"err\":" ++ (show_int rc ++ codes "}")))

-- cmd_jsonout_err: the memory, and the return value.
unfoldable pub jsonout_err : List ℕ → ℕ → Bool → ℤ → List ℕ → List ℕ × ℤ
jsonout_err mem dstmax json rc cmdname =
    let text = err_text cmdname rc in
    if json
    then (put_at 0 (snprintf (sub_size dstmax 1) text) mem, pos (length text))
    else (mem, rc)

-- cmd_jsonout_fmt with its text formatted.
unfoldable pub jsonout_fmt : Cursor → Bool → ℤ → List ℕ → Cursor × ℤ
jsonout_fmt c json rc text = if json then (print text c, pos (length text)) else (c, rc)

-- cmd_jsonout_data; `src` holds the `srcbytes` bytes, and the file's offset is the number.
unfoldable pub jsonout_data : Cursor → Bool → ℤ → List ℕ → ℕ → Cursor × ℤ
jsonout_data c json rc src offset =
    if json
    then (if length src == 0
        then (print (codes "}") c, rc +ℤ pos 1)
        else (let c1 = print (codes ", \"d_offset\":" ++ show_dec offset) c in
            let c2 = print (codes ", \"d_size\":" ++ show_dec (length src)) c1 in
            let c3 = print (codes ", \"d_hex\":\"") c2 in
            let c4 = print_hex src c3 in
            let c5 = print (codes "\"}") c4 in (c5, rc +ℤ pos (c5.at - c.at))))
    else (c, rc)
