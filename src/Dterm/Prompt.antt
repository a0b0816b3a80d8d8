-- ===== src/Dterm/Prompt.antt =====
-- The prompt of dterm_prompter in main/dterm.c over any sequence of keystrokes.
use mathlib.Core.Path.{subst}
use otdb.Base.{
  ℕ, zero, suc, ap, ◌≡◌, refl, List, [], ◌∷◌, Bool, true, false, Option, none, some, leb, length,
  arith, get_or,
}
use otdb.Base.Branch.{if-both}
use otdb.Dterm.{
  Line, Command, ct_sigquit, ct_sigint, ct_key, ct_prompt, ct_enter, ct_autofill, ct_histnext,
  ct_histprev, ct_delete, ct_ignore, PromptState, prompt_off, prompt_on, npcode, keystroke,
  Prompter, Round, killed, bad_index, goes, zeros, linesize, run_command, when_on, open_prompt,
  when_off, on_keys,
}
use otdb.Dterm.Editing.{
  IsLine, reset-IsLine, putcmd-IsLine, replace_line-IsLine, delete_char-IsLine,
}

abbrev is_on : PromptState → Bool
is_on prompt_on = true
is_on prompt_off = false

-- The mutex is held exactly while the prompt is up, and the line is a line.
pub record IsPrompter (p : Prompter) : Type 0 where
  pub lock : p.locked ≡ is_on p.state
  pub line : IsLine p.line

abbrev Goes : Round → Type 0
Goes (killed cmd) = Unit
Goes bad_index = Unit
Goes (goes p) = IsPrompter p

-- Where the thread starts: off, unlocked, the line empty.
abbrev pub start : Prompter
start = record {
  state = prompt_off;
  locked = false;
  line = record { linebuf = zeros linesize; cline = 0; linelen = 0 };
}

-- What a sequence of keystrokes can lead to, with any completions and any history.
pub data Reaches : Prompter → Type 0 where
  at_start : Reaches start
  key :
      (name : Line → Option (List ℕ)) (newer older : Option (List ℕ)) (keys : List ℕ)
      (p q : Prompter)
      → Reaches p
      → on_keys name newer older p.state keys p ≡ goes q
      → Reaches q

module _ (name : Line → Option (List ℕ)) (newer older : Option (List ℕ)) (p : Prompter)
    (v : IsPrompter p) where
  left :
      (l : Line) → IsLine l → IsPrompter (record { state = prompt_off; locked = false; line = l })
  left l h = record { lock = refl; line = h }

  run_command-Goes : (cmd : Command) (c : ℕ) → Goes (run_command name newer older cmd c p)
  unfolding run_command
  run_command-Goes ct_sigquit c = tt
  run_command-Goes ct_sigint c = tt
  run_command-Goes ct_key c = record { lock = v.lock; line = putcmd-IsLine (c ∷ []) p.line v.line }
  run_command-Goes ct_prompt c = left _ (reset-IsLine p.line v.line.size)
  run_command-Goes ct_enter c = left _ (reset-IsLine p.line v.line.size)
  run_command-Goes ct_autofill c = record {
    lock = v.lock;
    line = replace_line-IsLine (name p.line) p.line v.line;
  }
  run_command-Goes ct_histnext c = record {
    lock = v.lock;
    line = replace_line-IsLine newer p.line v.line;
  }
  run_command-Goes ct_histprev c = record {
    lock = v.lock;
    line = replace_line-IsLine older p.line v.line;
  }
  run_command-Goes ct_delete c = record { lock = v.lock; line = delete_char-IsLine p.line v.line }
  run_command-Goes ct_ignore c = left p.line v.line

  when_on-Goes : (o : Option Command) (keys : List ℕ) → Goes (when_on name newer older o keys p)
  unfolding when_on
  when_on-Goes none keys = tt
  when_on-Goes (some cmd) keys = run_command-Goes cmd (get_or keys 0 0)

  open_prompt-Goes : (cmd : Command) → Goes (open_prompt name newer older cmd p)
  unfolding open_prompt
  open_prompt-Goes ct_sigquit = tt
  open_prompt-Goes ct_sigint = tt
  open_prompt-Goes ct_prompt = record { lock = refl; line = v.line }
  open_prompt-Goes ct_key = v
  open_prompt-Goes ct_enter = v
  open_prompt-Goes ct_autofill = v
  open_prompt-Goes ct_histnext = v
  open_prompt-Goes ct_histprev = v
  open_prompt-Goes ct_delete = v
  open_prompt-Goes ct_ignore = v

  when_off-Goes : (keys : List ℕ) → Goes (when_off name newer older keys p)
  unfolding when_off
  when_off-Goes [] = v
  when_off-Goes (c ∷ []) =
      if-both Goes (leb 128 c) _ _ (λ _. tt)
        (λ _. if-both Goes (leb c 31) _ _ (λ _. open_prompt-Goes (npcode c)) (λ _. v))
  when_off-Goes (c ∷ (d ∷ keys)) = v

  on_keys-Goes :
      (state : PromptState) (keys : List ℕ) → Goes (on_keys name newer older state keys p)
  unfolding on_keys
  on_keys-Goes prompt_off keys = when_off-Goes keys
  on_keys-Goes prompt_on keys = when_on-Goes (keystroke keys) keys

length-zeros : (n : ℕ) → length (zeros n) ≡ n
length-zeros zero = refl
length-zeros (suc n) = ap suc (length-zeros n)

arrived : (r : Round) (q : Prompter) → r ≡ goes q → Goes r → Goes (goes q)
arrived r q e g = subst Goes e g

-- After any sequence of keystrokes that leaves the thread running, it holds the mutex exactly where the
-- prompt is up, the line buffer has its size, and `cline` stands `linelen` bytes into it, no more
-- than LINESIZE.
pub Reaches-IsPrompter : (p : Prompter) → Reaches p → IsPrompter p
Reaches-IsPrompter p at_start = record {
  lock = refl;
  line = record { size = length-zeros linesize; place = refl; fits = omega arith };
}
Reaches-IsPrompter q (key name newer older keys p _ reached e) =
    arrived (on_keys name newer older p.state keys p) q e
      (on_keys-Goes name newer older p (Reaches-IsPrompter p reached) p.state keys)
