-- ===== src/CmdName/Cut.antt =====
-- What cmd_getname of main/cmdsearch.c copies, and how far it writes.
use otdb.Base.{
  ℕ, zero, suc, ◌≡◌, refl, ap, List, [], ◌∷◌, ◌++◌, Bool, true, false, length, take, ◌||◌, ◌==◌,
}
use otdb.Text.{is_space}
use otdb.CmdName.{copy_name, ended, count, getname}

-- A byte that ends a name: the end of the line, or white space.
abbrev pub is_end : ℕ → Bool
is_end c = c == 0 || is_space c

-- A word and, behind it, the end of the list or a byte that ends it.
pub data Word : List ℕ → List ℕ → Type 0 where
  all_of_it : Word [] []
  ends : (c : ℕ) (rest : List ℕ) → is_end c ≡ true → Word [] (c ∷ rest)
  goes_on :
      (c : ℕ) (name line : List ℕ) → is_end c ≡ false → Word name line → Word (c ∷ name) (c ∷ line)

copy_name-Word :
    (name line : List ℕ) (diff : ℕ) → Word name line → copy_name diff line ≡ take diff name
unfolding copy_name
copy_name-Word name line zero w = refl
copy_name-Word _ _ (suc diff) all_of_it = refl
copy_name-Word _ _ (suc diff) (ends c rest e) = rw e refl
copy_name-Word _ _ (suc diff) (goes_on c name line e w) =
    rw e (ap (λ t. c ∷ t) (copy_name-Word name line diff w))

ended_append : (name : List ℕ) → ended name ≡ name ++ 0 ∷ []
ended_append [] = refl
ended_append (c ∷ name) = ap (λ t. c ∷ t) (ended_append name)

count_length : (name : List ℕ) → count name ≡ length name
count_length [] = refl
count_length (c ∷ name) = ap suc (count_length name)

-- cmd_getname stores the first `max_cmdname` bytes of the first word of the line and a terminator, and
-- returns how many bytes of the word it stored: with a word of `max_cmdname` bytes or more it writes
-- `max_cmdname + 1` bytes.
pub getname-Word :
    (name line : List ℕ) (max_cmdname : ℕ)
    → Word name line
    → getname line max_cmdname ≡ (take max_cmdname name ++ 0 ∷ [], length (take max_cmdname name))
unfolding getname
getname-Word name line max w =
    rw (copy_name-Word name line max w, ended_append (take max name), count_length (take max name))
      refl
