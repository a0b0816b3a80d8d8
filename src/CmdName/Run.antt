-- ===== src/CmdName/Run.antt =====
-- cmd_run of main/cmdsearch.c: a built-in command, or one that is a program. The shell is a parameter.
use otdb.Base.{ℕ, ◌-◌, List, ◌++◌, Option, none, some, length, take, ltb, ◌==◌, if◌then◌else◌}
use otdb.Base.Int.{ℤ, negsuc}
use otdb.Text.{codes}

-- cmdtab_item_t: the path is the action of a program, and `extcmd` is an otdb_extcmd_t.
pub record CmdItem : Type 0 where
  pub name : List ℕ
  pub path : List ℕ
  pub extcmd : ℕ

-- The result of a command, and the memory from `dst` on.
abbrev Output : Type 0
Output = ℤ × List ℕ

-- The line for the shell, in `xpath` of 512 bytes. Without room behind the name the code writes in front
-- of it, and it may read past the end of `src`: both are `none`.
unfoldable shell_line : List ℕ → List ℕ → ℕ → List ℕ → Option (List ℕ)
shell_line path name inbytes src =
    let head = take 512 (path ++ (name ++ codes " ")) in
    let room = 512 - length head in
    let rsize = if ltb inbytes room then inbytes else room - 1 in
    if room == 0
    then none
    else if ltb (length src) rsize
    then none
    else some (head ++ take rsize src)

-- popen and bintex_fs: what the program puts to `dst`, or `none` where it cannot be started.
unfoldable run_shell : (List ℕ → Option Output) → List ℕ → Option (List ℕ) → Option Output
run_shell popen mem none = none
run_shell popen mem (some xpath) = elim (popen xpath) [
  | none ↦ some (negsuc 0, mem)
  | some out ↦ some out
]

unfoldable run_item :
    (List ℕ → Option Output) → Output → CmdItem → ℕ → List ℕ → List ℕ → Option Output
run_item popen action cmd inbytes src mem =
    if cmd.extcmd == 0
    then some action
    else if cmd.extcmd == 1
    then run_shell popen mem (shell_line cmd.path cmd.name inbytes src)
    else some (negsuc 1, mem)

-- cmd_run; `action` is what the command's function does where it is built in.
unfoldable cmd_run :
    (List ℕ → Option Output) → Output → Option CmdItem → ℕ → List ℕ → List ℕ → Option Output
cmd_run popen action none inbytes src mem = some (negsuc 0, mem)
cmd_run popen action (some cmd) inbytes src mem = run_item popen action cmd inbytes src mem
