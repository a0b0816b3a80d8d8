-- ===== src/Dterm.antt =====
-- The line editor and the prompt of main/dterm.c: dterm_putcmd, dterm_remc, dterm_reset, sub_str_mark,
-- sub_str_sanitize, and the handling of a keystroke in dterm_prompter.
pub mod Batch
pub mod Editing
pub mod Prompt
mod Tests
use otdb.Base.{
  ℕ, zero, suc, ◌+◌, ◌-◌, List, [], ◌∷◌, ◌++◌, Bool, true, false, not, Option, none, some, length,
  ltb, leb, ◌==◌, if◌then◌else◌, ◌&&◌, ◌||◌, set, get_or,
}

-- LINESIZE
abbrev pub linesize : ℕ
linesize = 1024

-- `linebuf`, the offset of `cline` in it, and `linelen`. A store at LINESIZE falls on `readbuf`, which the
-- next read fills again, and changes nothing here.
pub record Line : Type 0 where
  pub linebuf : List ℕ
  pub cline : ℕ
  pub linelen : ℕ

abbrev pub zeros : ℕ → List ℕ
zeros zero = []
zeros (suc n) = 0 ∷ zeros n

unfoldable pub reset_loop : ℕ → List ℕ → List ℕ
reset_loop zero buf = buf
reset_loop (suc n) [] = 0 ∷ reset_loop n []
reset_loop (suc n) (c ∷ buf) = 0 ∷ reset_loop n buf

-- dterm_reset
unfoldable pub reset : Line → Line
reset l = record { linebuf = reset_loop linesize l.linebuf; cline = 0; linelen = 0 }

-- `*dt->cline++ = *s++`, for each byte
unfoldable pub put_loop : List ℕ → ℕ → List ℕ → List ℕ × ℕ
put_loop [] cline buf = (buf, cline)
put_loop (c ∷ s) cline buf = put_loop s (cline + 1) (set buf cline c)

-- dterm_putcmd, and dterm_putsc for a string
unfoldable pub putcmd : List ℕ → Line → Line × ℕ
putcmd s l =
    let (buf, cline) = put_loop s l.cline l.linebuf in
    if ltb linesize (l.linelen + length s)
    then (l, 0)
    else (record { linebuf = buf; cline = cline; linelen = l.linelen + length s }, length s)

-- The loop of dterm_remc.
unfoldable pub rem_loop : ℕ → Line → Line
rem_loop zero l = l
rem_loop (suc count) l =
    rem_loop count
      (record { linebuf = set l.linebuf l.cline 0; cline = l.cline - 1; linelen = l.linelen - 1 })

unfoldable pub remc : ℕ → Line → Line × ℕ
remc count l = let l1 = rem_loop count l in (l1, l.linelen - l1.linelen)

-- sub_str_mark: the string with its first newline made a terminator, and the length before it.
unfoldable pub str_mark : List ℕ → ℕ → List ℕ × ℕ
str_mark [] max = ([], 0)
str_mark (c ∷ str) zero = ((if c == b'\n' then 0 ∷ str else c ∷ str), 0)
str_mark (c ∷ str) (suc max) =
    let (rest, n) = str_mark str max in
    if c == 0 then (c ∷ str, 0) else (if c == b'\n' then (0 ∷ str, 0) else (c ∷ rest, n + 1))

-- sub_str_sanitize
unfoldable pub str_sanitize : List ℕ → ℕ → List ℕ
str_sanitize [] max = []
str_sanitize (c ∷ str) zero = c ∷ str
str_sanitize (c ∷ str) (suc max) =
    let rest = str_sanitize str max in
    if c == 0 then c ∷ str else (if c == 13 then b'\n' ∷ rest else c ∷ rest)

-- `cmdtype`: the commands that a keystroke gives
pub data Command : Type 0 where
  ct_sigquit ct_sigint ct_key ct_prompt ct_enter ct_autofill ct_histnext ct_histprev ct_delete
        ct_ignore :
      Command

pub data PromptState : Type 0 where
  prompt_off prompt_on : PromptState

-- The table npcodes.
unfoldable pub npcode : ℕ → Command
npcode c =
    if c == 3
    then ct_sigint
    else (if c == 9
        then ct_autofill
        else (if c == 10
            then ct_enter
            else (if c == 27 then ct_prompt else (if c == 28 then ct_sigquit else ct_ignore))))

-- A byte as a `char`, which is signed: `none` where it is below zero, an index outside npcodes.
unfoldable pub on_char : ℕ → Option Command
on_char c =
    if leb 128 c
    then none
    else (if leb c 31 then some (npcode c) else (if c == 127 then some ct_delete else some ct_key))

-- The command of what `read` gave, with the prompt up; a third byte A or B makes an arrow key.
unfoldable pub keystroke : List ℕ → Option Command
keystroke [] = some ct_ignore
keystroke (c ∷ []) = on_char c
keystroke (a ∷ (b ∷ [])) = some ct_ignore
keystroke (a ∷ (b ∷ (c ∷ more))) =
    if a == 27 && b == b'['
    then (if c == b'A'
        then some ct_histnext
        else (if c == b'B' then some ct_histprev else some ct_ignore))
    else some ct_ignore

-- The state, whether the thread holds `iso_mutex`, and the line.
pub record Prompter : Type 0 where
  pub state : PromptState
  pub locked : Bool
  pub line : Line

-- A signal raised, an index outside npcodes, or the next keystroke awaited.
pub data Round : Type 0 where
  killed : Command → Round
  bad_index : Round
  goes : Prompter → Round

unfoldable pub replace_line : Option (List ℕ) → Line → Line
replace_line none l = l
replace_line (some text) l = (putcmd text (reset l)).0

unfoldable pub delete_char : Line → Line
delete_char l = if l.linelen == 0 then l else (remc 1 l).0

abbrev pub stay_on : Prompter → Line → Round
stay_on p l = goes (record p { line = l })

-- The end of a round that leaves the prompt: off, and the mutex unlocked.
abbrev pub leave : Line → Round
leave l = goes (record { state = prompt_off; locked = false; line = l })

-- The switch on the command with the prompt up. `name` completes a line, and `newer` and `older` are
-- what the history gives for the arrow keys.
module _ (name : Line → Option (List ℕ)) (newer older : Option (List ℕ)) where
  unfoldable pub run_command : Command → ℕ → Prompter → Round
  run_command ct_sigquit c p = killed ct_sigquit
  run_command ct_sigint c p = killed ct_sigint
  run_command ct_key c p = stay_on p (putcmd (c ∷ []) p.line).0
  run_command ct_prompt c p = leave (reset p.line)
  run_command ct_enter c p = leave (reset p.line)
  run_command ct_autofill c p = stay_on p (replace_line (name p.line) p.line)
  run_command ct_histnext c p = stay_on p (replace_line newer p.line)
  run_command ct_histprev c p = stay_on p (replace_line older p.line)
  run_command ct_delete c p = stay_on p (delete_char p.line)
  run_command ct_ignore c p = leave p.line

  unfoldable pub when_on : Option Command → List ℕ → Prompter → Round
  when_on none keys p = bad_index
  when_on (some cmd) keys p = run_command cmd (get_or keys 0 0) p

  -- With the prompt off, escape locks the mutex and opens it.
  unfoldable pub open_prompt : Command → Prompter → Round
  open_prompt ct_prompt p = goes (record p { state = prompt_on; locked = true })
  open_prompt ct_sigquit p = killed ct_sigquit
  open_prompt ct_sigint p = killed ct_sigint
  open_prompt cmd p = goes p

  unfoldable pub when_off : List ℕ → Prompter → Round
  when_off (c ∷ []) p =
      if leb 128 c then bad_index else (if leb c 31 then open_prompt (npcode c) p else goes p)
  when_off keys p = goes p

  -- A round of the loop of dterm_prompter.
  unfoldable pub on_keys : PromptState → List ℕ → Prompter → Round
  on_keys prompt_off keys p = when_off keys p
  on_keys prompt_on keys p = when_on (keystroke keys) keys p
