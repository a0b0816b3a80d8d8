-- ===== src/Dterm/Editing.antt =====
-- The line editor of main/dterm.c: its invariant, and what deleting leaves.
use otdb.Base.{
  ℕ, zero, suc, ◌+◌, ◌<◌, ◌≤◌, ◌≡◌, ◌∙◌, refl, ap, List, [], ◌∷◌, false, length, arith, set, get_or,
  length-set, ltb, ◌==◌, Option, none, some,
}
use otdb.Base.Branch.{if-both}
use otdb.Dterm.{
  Line, linesize, reset_loop, reset, put_loop, putcmd, rem_loop, remc, replace_line, delete_char,
}

-- The buffer has its size, and `cline` stands `linelen` bytes into it.
pub record IsLine (l : Line) : Type 0 where
  pub size : length l.linebuf ≡ linesize
  pub place : l.cline ≡ l.linelen
  pub fits : l.linelen ≤ linesize

length-reset_loop : (n : ℕ) (buf : List ℕ) → length buf ≡ n → length (reset_loop n buf) ≡ n
unfolding reset_loop
length-reset_loop zero [] h = refl
length-reset_loop zero (c ∷ buf) h = absurd (omega arith)
length-reset_loop (suc n) [] h = absurd (omega arith)
length-reset_loop (suc n) (c ∷ buf) h = ap suc (length-reset_loop n buf (omega arith))

pub reset-IsLine : (l : Line) → length l.linebuf ≡ linesize → IsLine (reset l)
unfolding reset
reset-IsLine l h = record {
  size = length-reset_loop linesize l.linebuf h;
  place = refl;
  fits = omega arith;
}

put_loop-cline :
    (s : List ℕ) (cline : ℕ) (buf : List ℕ) → (put_loop s cline buf).1 ≡ cline + length s
unfolding put_loop
put_loop-cline [] cline buf = omega arith
put_loop-cline (c ∷ s) cline buf = omega (arith, put_loop-cline s (cline + 1) (set buf cline c))

length-put_loop :
    (s : List ℕ) (cline : ℕ) (buf : List ℕ) → length (put_loop s cline buf).0 ≡ length buf
unfolding put_loop
length-put_loop [] cline buf = refl
length-put_loop (c ∷ s) cline buf =
    length-put_loop s (cline + 1) (set buf cline c) ∙ length-set buf cline c

pub putcmd-IsLine : (s : List ℕ) (l : Line) → IsLine l → IsLine (putcmd s l).0
unfolding putcmd
putcmd-IsLine s l v =
    if-both {A = Line × ℕ} (λ r. IsLine r.0) (ltb linesize (l.linelen + length s)) _ _ (λ _. v)
      (λ e. record {
        size = length-put_loop s l.cline l.linebuf ∙ v.size;
        place = put_loop-cline s l.cline l.linebuf ∙ omega (arith, v.place);
        fits = ground arith;
      })

pub remc-IsLine : (l : Line) → IsLine l → 0 < l.linelen → IsLine (remc 1 l).0
unfolding remc rem_loop
remc-IsLine l v h = record {
  size = length-set l.linebuf l.cline 0 ∙ v.size;
  place = omega (arith, v.place);
  fits = omega (arith, v.fits);
}

pub replace_line-IsLine : (o : Option (List ℕ)) (l : Line) → IsLine l → IsLine (replace_line o l)
unfolding replace_line
replace_line-IsLine none l v = v
replace_line-IsLine (some text) l v = putcmd-IsLine text (reset l) (reset-IsLine l v.size)

pub delete_char-IsLine : (l : Line) → IsLine l → IsLine (delete_char l)
unfolding delete_char
delete_char-IsLine l v =
    if-both IsLine (l.linelen == 0) _ _ (λ _. v) (λ e. remc-IsLine l v (ground arith))

get_or-set_self : (buf : List ℕ) (i c : ℕ) → i < length buf → get_or (set buf i c) i 0 ≡ c
get_or-set_self [] i c h = absurd (omega arith)
get_or-set_self (b ∷ buf) zero c h = refl
get_or-set_self (b ∷ buf) (suc i) c h = get_or-set_self buf i c (omega arith)

get_or-set_other : (buf : List ℕ) (i j c : ℕ) → i < j → get_or (set buf j c) i 0 ≡ get_or buf i 0
get_or-set_other [] i j c h = refl
get_or-set_other (b ∷ buf) i zero c h = absurd (omega arith)
get_or-set_other (b ∷ buf) zero (suc j) c h = refl
get_or-set_other (b ∷ buf) (suc i) (suc j) c h = get_or-set_other buf i j c (omega arith)

-- With room for one more byte, a byte that is typed and then deleted is counted out again, but it
-- stays in the buffer where the next byte goes.
remc-putcmd_leaves :
    (c : ℕ) (l : Line)
    → IsLine l
    → l.linelen < linesize
    → ((remc 1 (putcmd (c ∷ []) l).0).0.linelen ≡ l.linelen)
      × ((remc 1 (putcmd (c ∷ []) l).0).0.cline ≡ l.cline)
      × (get_or (remc 1 (putcmd (c ∷ []) l).0).0.linebuf l.cline 0 ≡ c)
unfolding remc rem_loop putcmd put_loop
remc-putcmd_leaves c l v h =
    let room : ltb linesize (l.linelen + 1) ≡ false = ground arith in
    rw room (
      omega arith,
      omega arith,
      get_or-set_other (set l.linebuf l.cline c) l.cline (l.cline + 1) 0 (omega arith)
          ∙ get_or-set_self l.linebuf l.cline c (omega (arith, v.size, v.place)),
    )
