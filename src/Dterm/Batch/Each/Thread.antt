-- ===== src/Dterm/Batch/Each/Thread.antt =====
-- The lines that a client sends, over all reads of the socket, in dterm_socket_clithread of main/dterm.c.
use native.Mathlib.Nat.{suc-add}
use otdb.Base.{
  ℕ, suc, ◌+◌, ◌≤◌, ◌≡◌, refl, List, [], ◌∷◌, ◌++◌, Bool, true, false, length, ◌==◌, arith,
  if◌then◌else◌, length-append, inl, inr, Bool-cases,
}
use otdb.Base.Int.{pos}
use otdb.Dterm.{str_sanitize}
use otdb.Dterm.Batch.{client_lines, client_thread}
use otdb.Dterm.Batch.Each.{
  IsText, IsInput, AreInput, joined, each_line, IsInput-IsText, client_lines-eq-each_line,
}

-- No carriage return.
abbrev IsUnbroken : List ℕ → Type 0
IsUnbroken [] = Unit
IsUnbroken (c ∷ l) = ((c == 13) ≡ false) × IsUnbroken l

abbrev ending : Bool → ℕ
ending true = b'\n'
ending false = 13

-- The bytes of the lines, each with a newline or a carriage return.
abbrev pub sent : List (List ℕ × Bool) → List ℕ
sent [] = []
sent ((l, newline) ∷ ls) = l ++ ending newline ∷ sent ls

-- Lines with no terminator, newline or carriage return in them, that do not begin with whitespace.
abbrev pub AreLines : List (List ℕ × Bool) → Type 0
AreLines [] = Unit
AreLines ((l, newline) ∷ ls) = IsInput l × IsUnbroken l × AreLines ls

-- Reads of one line at least.
abbrev pub AreReads : List (List (List ℕ × Bool)) → Type 0
AreReads [] = Unit
AreReads ([] ∷ reads) = ⊥
AreReads ((line ∷ lines) ∷ reads) = AreLines (line ∷ lines) × AreReads reads

abbrev pub all_sent : List (List (List ℕ × Bool)) → List (List ℕ)
all_sent [] = []
all_sent (lines ∷ reads) = sent lines ∷ all_sent reads

abbrev texts : List (List ℕ × Bool) → List (List ℕ)
texts [] = []
texts ((l, newline) ∷ ls) = l ∷ texts ls

abbrev pub all_texts : List (List (List ℕ × Bool)) → List (List ℕ)
all_texts [] = []
all_texts (lines ∷ reads) = texts lines ++ all_texts reads

str_sanitize_end :
    (newline : Bool) (rest : List ℕ) (max : ℕ)
    → str_sanitize (ending newline ∷ rest) (suc max) ≡ b'\n' ∷ str_sanitize rest max
unfolding str_sanitize
str_sanitize_end true rest max = refl
str_sanitize_end false rest max = refl

str_sanitize_line :
    (l rest : List ℕ) (newline : Bool) (max : ℕ)
    → IsText l
    → IsUnbroken l
    → str_sanitize (l ++ ending newline ∷ rest) (length l + suc max)
      ≡ l ++ b'\n' ∷ str_sanitize rest max
unfolding str_sanitize
str_sanitize_line [] rest newline max t u =
    let all : 0 + suc max ≡ suc max = omega arith in rw all (str_sanitize_end newline rest max)
str_sanitize_line (c ∷ l) rest newline max t u =
    rw (suc-add, t.0, u.0, str_sanitize_line l rest newline max t.2 u.1) refl

-- What sub_str_sanitize leaves: all lines end with a newline.
str_sanitize_sent :
    (lines : List (List ℕ × Bool))
    → AreLines lines
    → str_sanitize (sent lines) (length (sent lines)) ≡ joined (texts lines)
unfolding str_sanitize
str_sanitize_sent [] h = refl
str_sanitize_sent ((l, newline) ∷ ls) h =
    rw
      (
        length-append l (ending newline ∷ sent ls),
        str_sanitize_line l (sent ls) newline (length (sent ls)) (IsInput-IsText l h.0) h.1,
        str_sanitize_sent ls h.2,
      )
      refl

texts-AreInput : (lines : List (List ℕ × Bool)) → AreLines lines → AreInput (texts lines)
texts-AreInput [] h = tt
texts-AreInput ((l, newline) ∷ ls) h = (h.0, texts-AreInput ls h.2)

length-joined : (ls : List (List ℕ)) → length ls ≤ length (joined ls)
length-joined [] = omega arith
length-joined (l ∷ ls) = omega (arith, length-joined ls, length-append l (b'\n' ∷ joined ls))

module _ {S : Type 0} (proc : List ℕ → ℕ → S → Bool × S) where
  if_fst :
      (b : Bool) (x : Bool × S) (s : S) → (if b then x else (false, s)).1 ≡ (if b then x.1 else s)
  if_fst true x s = refl
  if_fst false x s = refl

  -- Lines after others, up to the first that is refused.
  each_line-append :
      (ls ms : List (List ℕ)) (s : S)
      → each_line proc (ls ++ ms) s
        ≡ (let r = each_line proc ls s in if r.0 then each_line proc ms r.1 else (false, r.1))
  each_line-append [] ms s = refl
  each_line-append (l ∷ ls) ms s = elim (Bool-cases (proc l (length l) s).0) [
    | inl on ↦ rw on (each_line-append ls ms (proc l (length l) s).1)
    | inr off ↦ rw off refl
  ]

  -- One read.
  read_lines :
      (line : List ℕ × Bool) (lines : List (List ℕ × Bool)) (s : S)
      → AreLines (line ∷ lines)
      → (let load = joined (texts (line ∷ lines)) in
          client_lines proc (length load) load (pos (length load)) s
          ≡ each_line proc (texts (line ∷ lines)) s)
  read_lines (l, newline) lines s h =
      client_lines-eq-each_line proc l (texts lines) (length (joined (l ∷ texts lines))) s
        (texts-AreInput ((l, newline) ∷ lines) h) (length-joined (l ∷ texts lines))

  -- Over all reads of the socket, each of which brings whole lines, at least one, ended by a newline or by a
  -- carriage return, with neither of them nor a terminator inside and none beginning with
  -- whitespace: the thread processes the lines one by one in their order, each as it was sent, with
  -- its length, up to the first that sub_proc_lineinput refuses, in whatever reads they come.
  pub client_thread-eq-each_line :
      (reads : List (List (List ℕ × Bool))) (s : S)
      → AreReads reads
      → client_thread proc (all_sent reads) s ≡ (each_line proc (all_texts reads) s).1
  unfolding client_thread
  client_thread-eq-each_line [] s h = refl
  client_thread-eq-each_line ([] ∷ reads) s h = absurd h
  client_thread-eq-each_line ((([], newline) ∷ lines) ∷ reads) s h = absurd h.0.0
  client_thread-eq-each_line (((c ∷ l, newline) ∷ lines) ∷ reads) s h =
      let first = (c ∷ l, newline) ∷ lines in
      let r = each_line proc (texts first) s in
      rw
        (
          str_sanitize_sent first h.0,
          read_lines (c ∷ l, newline) lines s h.0,
          each_line-append (texts first) (all_texts reads) s,
          if_fst r.0 (each_line proc (all_texts reads) r.1) r.1,
          client_thread-eq-each_line reads r.1 h.1,
        )
        refl
