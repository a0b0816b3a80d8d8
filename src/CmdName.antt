-- ===== src/CmdName.antt =====
-- cmd_getname of main/cmdsearch.c: the name at the head of a command line.
pub mod Cut
pub mod Run
mod Tests
use otdb.Base.{ℕ, zero, suc, ◌+◌, List, [], ◌∷◌, Bool, ◌||◌, ◌==◌, if◌then◌else◌}
use otdb.Text.{is_space}

-- The bytes copied, over `diff` and the command line, which ends at a zero byte or the list's end.
unfoldable pub copy_name : ℕ → List ℕ → List ℕ
copy_name zero cmdline = []
copy_name (suc diff) [] = []
copy_name (suc diff) (c ∷ cmdline) =
    let rest = copy_name diff cmdline in if c == 0 || is_space c then [] else c ∷ rest

abbrev pub ended : List ℕ → List ℕ
ended [] = 0 ∷ []
ended (c ∷ name) = c ∷ ended name

abbrev pub count : List ℕ → ℕ
count [] = 0
count (c ∷ name) = suc (count name)

-- What is stored from `cmdname` on, and the number returned.
unfoldable pub getname : List ℕ → ℕ → List ℕ × ℕ
getname cmdline max_cmdname = let name = copy_name max_cmdname cmdline in (ended name, count name)
