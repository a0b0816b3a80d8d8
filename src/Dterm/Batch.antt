-- ===== src/Dterm/Batch.antt =====
-- Lines of input in main/dterm.c: dterm_socket_clithread, which gets them from a client's socket, and
-- dterm_cmdfile, which gets them from a file. The bytes behind a buffer read as terminators. A line goes to
-- sub_proc_lineinput, which is an argument: from the string, `linelen` and a state to the new state.
pub mod Each
use otdb.Base.{
  ℕ, zero, suc, ◌+◌, List, [], ◌∷◌, ◌++◌, Bool, true, false, Option, none, some, length, drop,
  if◌then◌else◌,
}
use otdb.Base.Int.{ℤ, pos, negsuc, ◌-ℤ◌, ltb_ℤ}
use otdb.Text.{is_space}
use otdb.DevList.{size_of}
use otdb.JsonTools.Elements.{c_text}
use otdb.Dterm.{str_mark, str_sanitize}

-- Whitespace ahead of a command: the string behind it, and `loadlen`.
unfoldable pub burn : List ℕ → ℤ → List ℕ × ℤ
burn [] loadlen = ([], loadlen)
burn (c ∷ str) loadlen =
    let rest = burn str (loadlen -ℤ pos 1) in if is_space c then rest else (c ∷ str, loadlen)

-- The line that is next, its length, the buffer behind it, and `loadlen` after it.
pub record Taken : Type 0 where
  pub line : List ℕ
  pub linelen : ℕ
  pub behind : List ℕ
  pub left : ℤ

unfoldable pub take_line : List ℕ → ℤ → Taken
take_line buf loadlen =
    let (str, n) = burn buf loadlen in
    let (marked, linelen) = str_mark str (size_of n) in
    record {
      line = c_text marked;
      linelen = linelen;
      behind = drop (linelen + 1) marked;
      left = n -ℤ pos (linelen + 1);
    }

-- Whether the thread goes on.
module _ {S : Type 0} (proc : List ℕ → ℕ → S → Bool × S) where
  -- The loop over the lines of one read.
  unfoldable pub client_lines : ℕ → List ℕ → ℤ → S → Bool × S
  client_lines zero buf loadlen s = (true, s)
  client_lines (suc fuel) buf loadlen s =
      let t = take_line buf loadlen in
      let (goes_on, s1) = proc t.line t.linelen s in
      let rest = client_lines fuel t.behind t.left s1 in
      if goes_on then (if ltb_ℤ (pos 0) t.left then rest else (true, s1)) else (false, s1)

  -- The thread over its reads; an empty one is the end of the connection. A read is followed by the zeros
  -- of the buffer.
  unfoldable pub client_thread : List (List ℕ) → S → S
  client_thread [] s = s
  client_thread ([] ∷ reads) s = s
  client_thread ((c ∷ bytes) ∷ reads) s =
      let load = str_sanitize (c ∷ bytes) (length (c ∷ bytes)) in
      let (goes_on, s1) = client_lines (length load) load (pos (length load)) s in
      let rest = client_thread reads s1 in if goes_on then rest else s1

-- dterm_cmdfile: the command's own result comes beside, and a negative one ends the file with -4.
module _ {S : Type 0} (proc : List ℕ → ℕ → S → Bool × (ℤ × S)) where
  unfoldable file_lines : ℕ → List ℕ → ℤ → S → ℤ × S
  file_lines zero buf left s = (pos 0, s)
  file_lines (suc fuel) buf left s =
      let t = take_line buf left in
      let (goes_on, (cmdrc, s1)) = proc t.line t.linelen s in
      let rest = file_lines fuel t.behind t.left s1 in
      if ltb_ℤ (pos 0) left
      then (if ltb_ℤ cmdrc (pos 0) then (negsuc 3, s1) else if goes_on then rest else (pos 0, s1))
      else (pos 0, s)

  -- `contents` is `none` where the file cannot be opened, and `is_read` that it is read.
  unfoldable cmdfile : Option (List ℕ) → Bool → S → ℤ × S
  cmdfile none is_read s = (negsuc 1, s)
  cmdfile (some contents) is_read s =
      let load = str_sanitize contents (length contents) in
      if is_read then file_lines (length load) load (pos (length load)) s else (negsuc 2, s)
