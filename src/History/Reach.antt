-- ===== src/History/Reach.antt =====
-- Every state that calls of ch_add, ch_next and ch_prev (main/cmdhistory.c) lead to from ch_init.
-- ch_inc does not move a cursor, so the three cursors stay at the start of the buffer.
use otdb.Base.{
  ℕ, zero, suc, ◌<◌, ◌≡◌, refl, List, [], ◌∷◌, Bool, true, false, Option, none, some, arith, ◌==◌,
  get_or, Bool-cases, inl, inr, replicate, if◌then◌else◌,
}
use otdb.Base.Int.{ℤ, pos, ◌+ℤ◌, ◌-ℤ◌}
use otdb.History.{
  Cmdhist, at, is_zero_int, ch_init, ch_inc, ch_dec, remove_loop, ch_remove, add_byte, add_loop,
  ch_add, next_loop, ch_next, prev_loop, ch_prev, Call, add, next, prev, call, run,
}

pub get_or-replicate : (n i : ℕ) → get_or {A = ℕ} (replicate n 0) i 0 ≡ 0
get_or-replicate zero i = refl
get_or-replicate (suc n) zero = refl
get_or-replicate (suc n) (suc i) = get_or-replicate n i

-- The buffer behind its first byte.
pub blank : List ℕ
blank = replicate 1023 0

blank_zero : (i : ℕ) → get_or blank i 0 ≡ 0
unfolding blank
blank_zero i = get_or-replicate 1023 i

-- All cursors at the start, at most one byte stored there.
pub stuck : ℕ → ℤ → Cmdhist
stuck c n = record { history = c ∷ blank; putcur = 0; getstart = 0; getend = 0; count = n }

ch_init-eq-stuck : ch_init ≡ stuck 0 (pos 0)
unfolding ch_init stuck blank
ch_init-eq-stuck = refl

-- What ch_add leaves in `count`.
abbrev count_after : ℕ → ℤ → ℤ
count_after c n = if c == 0 then n +ℤ pos 1 else n +ℤ pos 1 -ℤ pos 1

remove_stuck : (f c : ℕ) → remove_loop (suc f) (c ∷ blank) 0 0 ≡ some (0 ∷ blank)
unfolding remove_loop ch_inc
remove_stuck f c = refl

add_byte-stuck :
    (c d : ℕ) (n : ℤ) → add_byte (stuck c n) d ≡ some (stuck d (if c == 0 then n else n -ℤ pos 1))
unfolding add_byte stuck ch_remove ch_inc
add_byte-stuck c d n = elim (Bool-cases (c == 0)) [
  | inl e ↦ rw e
  | inr e ↦ rw e (rw (remove_stuck 1023 c))
]

add_loop-stuck :
    (c : ℕ) (n : ℤ) (cmdstr : List ℕ)
    → add_loop (stuck c n) cmdstr
      ≡ some (stuck (get_or cmdstr 0 0) (if c == 0 then n else n -ℤ pos 1))
unfolding add_loop
add_loop-stuck c n [] = add_byte-stuck c 0 n
add_loop-stuck c n (d ∷ cmdstr) = rw (add_byte-stuck c d n) (unfold stuck in refl)

pub add_stuck :
    (c : ℕ) (n : ℤ) (cmdstr : List ℕ)
    → ch_add (stuck c n) cmdstr ≡ some (stuck (get_or cmdstr 0 0) (count_after c n))
unfolding ch_add stuck
add_stuck c n cmdstr = rw (add_loop-stuck c (n +ℤ pos 1) cmdstr)

ch_dec-suc : (k : ℕ) → ch_dec (suc k) ≡ k
unfolding ch_dec
ch_dec-suc k = ground arith

module _ (c : ℕ) (n : ℤ) where
  next_loop-stuck : (f : ℕ) (b : Bool) → next_loop (suc f) (stuck c n) b 0 ≡ some 0
  unfolding next_loop stuck ch_inc
  next_loop-stuck f b = refl

  pub next_stuck : is_zero_int n ≡ false → ch_next (stuck c n) ≡ some (stuck c n, some 0)
  unfolding ch_next stuck
  next_stuck e = rw e (rw (next_loop-stuck 1024 true) (rw (next_loop-stuck 1024 false)))

  stuck_getend : (stuck c n).getend ≡ 0
  unfolding stuck
  stuck_getend = refl

  stuck_blank : (k : ℕ) → at (stuck c n) (suc k) ≡ 0
  unfolding stuck
  stuck_blank k = blank_zero k

  -- Backwards over the blank bytes to the start.
  prev_loop_down : (f k : ℕ) → k < f → prev_loop f (stuck c n) true (suc k) ≡ some 0
  unfolding prev_loop
  prev_loop_down zero k h = absurd (omega arith)
  prev_loop_down (suc f) zero h = rw (ch_dec-suc 0) (rw stuck_getend)
  prev_loop_down (suc f) (suc k) h =
      rw (ch_dec-suc (suc k))
        (ground (arith, stuck_getend, stuck_blank k, prev_loop_down f k (omega arith)))

  prev_loop_blank : (f : ℕ) → 1022 < f → prev_loop (suc f) (stuck c n) true 0 ≡ some 0
  unfolding prev_loop ch_dec
  prev_loop_blank f h = ground (arith, stuck_getend, stuck_blank 1022, prev_loop_down f 1022 h)

  prev_loop_word : (f : ℕ) → prev_loop (suc f) (stuck c n) false 0 ≡ some 1023
  unfolding prev_loop ch_dec stuck
  prev_loop_word f = rw (blank_zero 1022)

  pub prev_stuck : is_zero_int n ≡ false → ch_prev (stuck c n) ≡ some (stuck c n, some 0)
  unfolding ch_prev stuck ch_inc
  prev_stuck e = rw e (rw (prev_loop_blank 1024 (omega arith)) (rw (prev_loop_word 1024)))

  next_empty : is_zero_int n ≡ true → ch_next (stuck c n) ≡ some (stuck c n, none)
  unfolding ch_next stuck
  next_empty e = rw e

  prev_empty : is_zero_int n ≡ true → ch_prev (stuck c n) ≡ some (stuck c n, none)
  unfolding ch_prev stuck
  prev_empty e = rw e

  next_any : (shown : Option ℕ) × (ch_next (stuck c n) ≡ some (stuck c n, shown))
  next_any = elim (Bool-cases (is_zero_int n)) [
    | inl e ↦ (none, next_empty e)
    | inr e ↦ (some 0, next_stuck e)
  ]

  prev_any : (shown : Option ℕ) × (ch_prev (stuck c n) ≡ some (stuck c n, shown))
  prev_any = elim (Bool-cases (is_zero_int n)) [
    | inl e ↦ (none, prev_empty e)
    | inr e ↦ (some 0, prev_stuck e)
  ]

-- The first byte of the last command added, or `c` where there is none.
pub last_byte : ℕ → List Call → ℕ
last_byte c [] = c
last_byte c (add cmdstr ∷ ops) = last_byte (get_or cmdstr 0 0) ops
last_byte c (next ∷ ops) = last_byte c ops
last_byte c (prev ∷ ops) = last_byte c ops

run-stuck :
    (c : ℕ) (n : ℤ) (ops : List Call)
    → (m : ℤ) × (run (stuck c n) ops ≡ some (stuck (last_byte c ops) m))
unfolding run call last_byte
run-stuck c n [] = (n, refl)
run-stuck c n (add cmdstr ∷ ops) =
    let (m, e) = run-stuck (get_or cmdstr 0 0) (count_after c n) ops in
    (m, rw (add_stuck c n cmdstr) e)
run-stuck c n (next ∷ ops) = let (m, e) = run-stuck c n ops in (m, rw ((next_any c n).1) e)
run-stuck c n (prev ∷ ops) = let (m, e) = run-stuck c n ops in (m, rw ((prev_any c n).1) e)

run_init : (ops : List Call) → (m : ℤ) × (run ch_init ops ≡ some (stuck (last_byte 0 ops) m))
run_init ops = rw ch_init-eq-stuck (run-stuck 0 (pos 0) ops)

-- After any calls of ch_add, ch_next and ch_prev on a new history, all three cursors are at the
-- start, and the buffer holds one byte, the first of the last command added, and 0 behind it.
pub history_keeps_one_byte :
    (ops : List Call)
    → (h : Cmdhist) × (run ch_init ops ≡ some h)
      × (h.putcur ≡ 0)
      × (h.getstart ≡ 0)
      × (h.getend ≡ 0)
      × (h.history ≡ last_byte 0 ops ∷ replicate 1023 0)
unfolding stuck blank
history_keeps_one_byte ops =
    let (m, e) = run_init ops in (stuck (last_byte 0 ops) m, e, refl, refl, refl, refl)
