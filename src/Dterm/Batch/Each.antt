-- ===== src/Dterm/Batch/Each.antt =====
-- The lines of a buffer, one by one, in dterm_socket_clithread of main/dterm.c.
pub mod Thread
use native.Mathlib.Nat.{suc-add}
use otdb.Base.{
  ap, ℕ, zero, suc, ◌+◌, ◌≤◌, ◌≡◌, refl, List, [], ◌∷◌, ◌++◌, Bool, true, false, length, drop, ◌==◌,
  arith, if◌then◌else◌, length-append,
}
use otdb.Base.Int.{ℤ, pos, ◌-ℤ◌, ltb_ℤ, int_laws}
use otdb.Text.{is_space}
use otdb.DevList.{size_of}
use otdb.JsonTools.Elements.{c_text}
use otdb.Dterm.{str_mark}
use otdb.Dterm.Batch.{burn, take_line, client_lines}

-- Bytes without a newline and without a terminator.
abbrev pub IsText : List ℕ → Type 0
IsText [] = Unit
IsText (c ∷ l) = ((c == 0) ≡ false) × ((c == b'\n') ≡ false) × IsText l

-- A line that begins with no whitespace.
abbrev pub IsInput : List ℕ → Type 0
IsInput [] = ⊥
IsInput (c ∷ l) = (is_space c ≡ false) × IsText (c ∷ l)

str_mark_line :
    (l rest : List ℕ) (max : ℕ)
    → IsText l
    → length l ≤ max
    → str_mark (l ++ b'\n' ∷ rest) max ≡ (l ++ 0 ∷ rest, length l)
unfolding str_mark
str_mark_line [] rest zero h k = refl
str_mark_line [] rest (suc max) h k = refl
str_mark_line (c ∷ l) rest zero h k = absurd (omega arith)
str_mark_line (c ∷ l) rest (suc max) h k =
    rw (h.0, h.1, str_mark_line l rest max h.2 (omega arith))
      (ap (λ n. (c ∷ (l ++ 0 ∷ rest), n)) (omega arith))

c_text_line : (l rest : List ℕ) → IsText l → c_text (l ++ 0 ∷ rest) ≡ l
unfolding c_text
c_text_line [] rest h = refl
c_text_line (c ∷ l) rest h = rw (h.0, c_text_line l rest h.2) refl

drop_line : (l rest : List ℕ) → drop (length l + 1) (l ++ 0 ∷ rest) ≡ rest
drop_line [] rest = refl
drop_line (c ∷ l) rest = rw suc-add (drop_line l rest)

burn_line : (l rest : List ℕ) (n : ℤ) → IsInput l → burn (l ++ rest) n ≡ (l ++ rest, n)
unfolding burn
burn_line [] rest n h = absurd h
burn_line (c ∷ l) rest n h = rw h.0 refl

pub IsInput-IsText : (l : List ℕ) → IsInput l → IsText l
IsInput-IsText [] h = absurd h
IsInput-IsText (c ∷ l) h = h.1

left_behind :
    (l rest : List ℕ) → pos (length (l ++ b'\n' ∷ rest)) -ℤ pos (length l + 1) ≡ pos (length rest)
left_behind l rest = omega (int_laws, length-append l (b'\n' ∷ rest))

-- The line that is taken.
take_line_lem :
    (l rest : List ℕ)
    → IsInput l
    → take_line (l ++ b'\n' ∷ rest) (pos (length (l ++ b'\n' ∷ rest)))
      ≡ record { line = l; linelen = length l; behind = rest; left = pos (length rest) }
unfolding take_line size_of
take_line_lem l rest h =
    let all = l ++ b'\n' ∷ rest in
    let fits : length l ≤ length all = omega (arith, length-append l (b'\n' ∷ rest)) in
    rw
      (
        burn_line l (b'\n' ∷ rest) (pos (length all)) h,
        str_mark_line l rest (length all) (IsInput-IsText l h) fits,
        c_text_line l rest (IsInput-IsText l h),
        drop_line l rest,
        left_behind l rest,
      )
      refl

-- Every line with its newline.
abbrev pub joined : List (List ℕ) → List ℕ
joined [] = []
joined (l ∷ ls) = l ++ b'\n' ∷ joined ls

abbrev pub AreInput : List (List ℕ) → Type 0
AreInput [] = Unit
AreInput (l ∷ ls) = IsInput l × AreInput ls

module _ {S : Type 0} (proc : List ℕ → ℕ → S → Bool × S) where
  -- Each line is processed, until one is refused.
  abbrev pub each_line : List (List ℕ) → S → Bool × S
  each_line [] s = (true, s)
  each_line (l ∷ ls) s =
      let (goes_on, s1) = proc l (length l) s in
      let rest = each_line ls s1 in if goes_on then rest else (false, s1)

  -- The loop over a buffer, with its lines each ended by a newline and none that begins with whitespace,
  -- ends in as many rounds as there are lines.
  pub client_lines-eq-each_line :
      (l : List ℕ) (ls : List (List ℕ)) (fuel : ℕ) (s : S)
      → AreInput (l ∷ ls)
      → length (l ∷ ls) ≤ fuel
      → client_lines proc fuel (joined (l ∷ ls)) (pos (length (joined (l ∷ ls)))) s
        ≡ each_line (l ∷ ls) s
  unfolding client_lines
  client_lines-eq-each_line l ls zero s h k = absurd (omega arith)
  client_lines-eq-each_line l [] (suc fuel) s h k = rw (take_line_lem l [] h.0) refl
  client_lines-eq-each_line l (m ∷ ls) (suc fuel) s h k =
      let later = m ++ b'\n' ∷ joined ls in
      let more : ltb_ℤ (pos 0) (pos (length later)) ≡ true =
        ground (arith, length-append m (b'\n' ∷ joined ls)) in
      rw (take_line_lem l later h.0, more)
        (ap (λ r. if (proc l (length l) s).0 then r else (false, (proc l (length l) s).1))
          (client_lines-eq-each_line m ls fuel (proc l (length l) s).1 h.1 (omega arith)))
