-- ===== src/Dterm/Tests.antt =====
-- Keystrokes at the prompt.
use otdb.Base.{ℕ, Bool, ◌≡◌, refl, List, [], ◌∷◌, ◌++◌, true, false, Option, none}
use otdb.Base.Int.{◌-ℤ◌}
use otdb.Text.{codes, is_space}
use otdb.Dterm.{
  Line, prompt_off, prompt_on, Prompter, bad_index, goes, on_keys, when_off, when_on, on_char,
  keystroke, npcode, open_prompt, str_mark, str_sanitize,
}
use otdb.DevList.{size_of}
use otdb.JsonTools.Elements.{c_text}
use otdb.Dterm.Batch.{burn, take_line, client_lines, client_thread}
use otdb.Dterm.Batch.Each.{each_line}
use otdb.Dterm.Batch.Each.Thread.{AreReads, all_sent, all_texts, client_thread-eq-each_line}
use otdb.Dterm.Editing.{IsLine}
use otdb.Dterm.Prompt.{IsPrompter, start, at_start, key, Reaches-IsPrompter}

abbrev no_name : Line → Option (List ℕ)
no_name l = none

abbrev opened : Prompter
opened = record start { state = prompt_on; locked = true }

escape_opens : on_keys no_name none none prompt_off (27 ∷ []) start ≡ goes opened
unfolding on_keys when_off npcode open_prompt
escape_opens = refl

-- A byte of a letter outside ASCII is a negative char.
wide_letter : on_keys no_name none none prompt_on (195 ∷ []) opened ≡ bad_index
unfolding on_keys when_on keystroke on_char
wide_letter = refl

Reaches-IsPrompter_example : IsPrompter opened
Reaches-IsPrompter_example =
    Reaches-IsPrompter opened (key no_name none none (27 ∷ []) start opened at_start escape_opens)

start-IsLine : IsLine start.line
start-IsLine = (Reaches-IsPrompter start at_start).line

str_mark_runs : str_mark (codes "file\nrest") 1024 ≡ (codes "file" ++ (0 ∷ codes "rest"), 4)
unfolding str_mark
str_mark_runs = refl

-- Two reads: of a line with a carriage return and one with a newline, and of one line.
abbrev two_reads : List (List (List ℕ × Bool))
two_reads = ((codes "r 1", false) ∷ (codes "w 2", true) ∷ []) ∷ ((codes "ls", true) ∷ []) ∷ []

two_reads-AreReads : AreReads two_reads
unfolding is_space
two_reads-AreReads = (
  (
    (refl, (refl, refl, (refl, refl, (refl, refl, tt)))),
    (refl, (refl, (refl, tt))),
    ((refl, (refl, refl, (refl, refl, (refl, refl, tt)))), (refl, (refl, (refl, tt))), tt),
  ),
  (((refl, (refl, refl, (refl, refl, tt))), (refl, (refl, tt)), tt), tt),
)

-- A command that stores its line.
abbrev stores : List ℕ → ℕ → List (List ℕ) → Bool × List (List ℕ)
stores line n s = (true, line ∷ s)

client_thread-eq-each_line_example :
    client_thread stores (all_sent two_reads) [] ≡ (each_line stores (all_texts two_reads) []).1
client_thread-eq-each_line_example =
    client_thread-eq-each_line stores two_reads [] two_reads-AreReads

client_thread_runs :
    client_thread stores (all_sent two_reads) [] ≡ codes "ls" ∷ codes "w 2" ∷ codes "r 1" ∷ []
unfolding client_thread client_lines take_line burn str_mark str_sanitize is_space size_of c_text
    ◌-ℤ◌
client_thread_runs = refl
