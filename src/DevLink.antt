-- ===== src/DevLink.antt =====
-- Commands to a device through the device manager: cmd_minauth_get of main/cmds.c and dm_xnprintf
-- of main/dm_printf.c up to its call of cmd_devmgr.
pub mod Whole
mod Tests
use Prim.Native.Nat.{bit_and}
use otdb.Base.{
  ℕ, zero, suc, ◌+◌, ◌-◌, ◌/◌, ◌%◌, List, [], ◌∷◌, ◌++◌, Bool, Option, none, some, true, length,
  take, ltb, ◌==◌, leb, if◌then◌else◌,
}
use otdb.Base.Maybe.{◌>>=◌}
use otdb.Text.{codes, snprintf}
use otdb.Hex.{hexnwrite}
use otdb.Output.{put_at}
use otdb.Base.Int.{ℤ, negsuc}

-- `AUTH_level`
pub data AuthLevel : Type 0 where
  guest root user : AuthLevel

-- cmd_minauth_get; `upper` is the upper byte of the file's `idmod`.
unfoldable pub minauth_get : ℕ → ℕ → AuthLevel
minauth_get upper modreq =
    let req = bit_and modreq upper in
    if bit_and req 0x03 == 0 then (if bit_and req 0x0C == 0 then root else user) else guest

unfoldable pub auth_name : AuthLevel → List ℕ
auth_name root = codes "root"
auth_name user = codes "user"
auth_name guest = codes "guest"

-- The bytes of a 64 bit number in memory, lowest first.
unfoldable pub bytes_le : ℕ → ℕ → List ℕ
bytes_le zero n = []
bytes_le (suc k) n = n % 256 ∷ bytes_le k (n / 256)

-- What lies between `dst` and `pcurs`, and `plimit`.
abbrev pub Line : Type 0
Line = List ℕ × ℕ

-- One formatted piece: `none` where `plimit` falls below zero, which returns -4. A piece that fills
-- the space to the last byte has its own last byte replaced by the terminator.
unfoldable pub add_text : List ℕ → Line → Option Line
add_text text (out, limit) =
    if ltb (length text) limit
    then some (out ++ text, limit - length text)
    else if length text == limit
    then some (out ++ snprintf limit text, 0)
    else none

-- `cmd_hexnwrite(pcurs, (uint8_t*)&uid, 8, plimit)`, which returns no more than `plimit`.
unfoldable pub add_uid : ℕ → Line → Line
add_uid uid (out, limit) =
    let (digits, n) = hexnwrite (bytes_le 8 uid) limit in (out ++ take n digits, limit - n)

-- The command line that dm_xnprintf hands to cmd_devmgr.
unfoldable pub xnode_line : AuthLevel → ℕ → List ℕ → ℕ → Option (List ℕ)
xnode_line auth uid cmd dstmax = do
  a ← add_text (codes "xnode " ++ (auth_name auth ++ codes " [")) ([], dstmax)
  c ← add_text (codes "] \"") (add_uid uid a)
  d ← add_text cmd c
  e ← add_text (codes "\"") d
  some e.0

-- The memory at `dst` while the pieces are written, with `pcurs - dst` and `plimit`; `ok` is false
-- once `plimit` is below zero, where nothing more is written.
pub record Pen : Type 0 where
  pub mem : List ℕ
  pub at : ℕ
  pub limit : ℕ
  pub ok : Bool

unfoldable pub pen_text : List ℕ → Pen → Pen
pen_text text p =
    if p.ok
    then record {
      mem = put_at p.at (snprintf p.limit text) p.mem;
      at = p.at + length text;
      limit = p.limit - length text;
      ok = leb (length text) p.limit;
    }
    else p

unfoldable pub pen_uid : ℕ → Pen → Pen
pen_uid uid p =
    if p.ok
    then (let (digits, n) = hexnwrite (bytes_le 8 uid) p.limit in
        record p { mem = put_at p.at digits p.mem; at = p.at + n; limit = p.limit - n })
    else p

unfoldable pub xnode_memory : AuthLevel → ℕ → List ℕ → ℕ → List ℕ → List ℕ
xnode_memory auth uid cmd dstmax mem =
    let p0 : Pen = record { mem = mem; at = 0; limit = dstmax; ok = true } in
    let p1 = pen_text (codes "xnode " ++ (auth_name auth ++ codes " [")) p0 in
    let p2 = pen_text (codes "] \"") (pen_uid uid p1) in
    (pen_text (codes "\"") (pen_text cmd p2)).mem

-- The end of dm_xnprintf: -4, or cmd_devmgr on the line; `devmgr` gives its return value and the
-- memory at `dst` after it.
unfoldable pub hand_over : (List ℕ → List ℕ → ℤ × List ℕ) → Option (List ℕ) → List ℕ → ℤ × List ℕ
hand_over devmgr none mem = (negsuc 3, mem)
hand_over devmgr (some line) mem = devmgr line mem

unfoldable pub dm_xnprintf :
    (List ℕ → List ℕ → ℤ × List ℕ) → List ℕ → ℕ → AuthLevel → ℕ → List ℕ → ℤ × List ℕ
dm_xnprintf devmgr mem dstmax auth uid cmd =
    hand_over devmgr (xnode_line auth uid cmd dstmax) (xnode_memory auth uid cmd dstmax mem)
