-- ===== src/SockPush/Lines.antt =====
-- The line buffer of sp_iothread and the deadline of sp_read in main/sockpush.c.
use otdb.Base.{
  ℕ, zero, suc, ◌+◌, ◌-◌, ◌*◌, ◌/◌, ◌%◌, ◌≤◌, ◌<◌, ◌≡◌, ◌≢◌, ◌↔◌, ◌∙◌, refl, sym, ap, List, [], ◌∷◌,
  ◌++◌, Bool, true, false, ◌||◌, length, take, drop, set, leb, ◌==◌, if◌then◌else◌, arith,
  append_assoc, append-nil, length-append, length-set, inl, inr, Bool-cases,
}
use otdb.Base.Splice.{take-set, drop_prefix}
use otdb.SockPush.{buffer_size, read_line, Timespec, deadline}

-- No byte of the list ends a line.
abbrev pub IsLine : List ℕ → Type 0
IsLine [] = Unit
IsLine (c ∷ line) = ((c == 10 || c == 0) ≡ false) × IsLine line

-- What the buffer holds before the cursor, after what it held and more bytes.
abbrev kept : List ℕ → List ℕ → List ℕ
kept acc [] = acc
kept acc (c ∷ line) = kept (if leb buffer_size (length acc + 1) then [] else acc ++ c ∷ []) line

take-set_same : (n : ℕ) (xs : List ℕ) (v : ℕ) → take n (set xs n v) ≡ take n xs
take-set_same zero xs v = refl
take-set_same (suc n) [] v = refl
take-set_same (suc n) (x ∷ xs) v = ap (λ t. x ∷ t) (take-set_same n xs v)

kept-drop :
    (line acc : List ℕ)
    → length acc < buffer_size
    → kept acc line ≡ drop ((length acc + length line) / buffer_size * buffer_size) (acc ++ line)
kept-drop [] acc h =
    let none_full : (length acc + 0) / 1024 * 1024 ≡ 0 = omega arith in
    rw (none_full, append-nil) refl
kept-drop (c ∷ line) acc h =
    let n = (length acc + suc (length line)) / 1024 * 1024 in
    let more = length-append acc (c ∷ []) in
    elim (Bool-cases (leb buffer_size (length acc + 1))) [
      | inl full ↦
          let last : length acc ≡ 1023 = ground (arith, full) in
          let rounds : (0 + length line) / 1024 * 1024 ≡ n - length (acc ++ c ∷ []) =
            omega (arith, more) in
          rw full (
            kept-drop line [] (omega arith)
            ∙ (ap (λ k. drop k line) rounds
                ∙ (sym (drop_prefix n (acc ++ c ∷ []) line (omega (arith, more)))
                    ∙ ap (drop n) (append_assoc acc (c ∷ []) line))))
      | inr room ↦
          let same : (length (acc ++ c ∷ []) + length line) / 1024 * 1024 ≡ n =
            ap (λ k. k / 1024 * 1024) (omega (arith, more)) in
          rw room (
            kept-drop line (acc ++ c ∷ []) (ground (arith, more, room))
            ∙ (ap (λ k. drop k ((acc ++ c ∷ []) ++ line)) same
                ∙ ap (drop n) (append_assoc acc (c ∷ []) line)))
    ]

-- The line is in the buffer before the cursor, with its terminator.
pub record IsStored (line : List ℕ) (r : Bool × (List ℕ × ℕ)) : Type 0 where
  pub ended : r.0 ≡ true
  pub cursor : r.1.1 ≡ length line + 1
  pub bytes : take r.1.1 r.1.0 ≡ line ++ 0 ∷ []
  pub size : length r.1.0 ≡ buffer_size

set-IsStored :
    (acc buf : List ℕ) (c : ℕ)
    → length buf ≡ buffer_size
    → length acc < buffer_size
    → take (length acc) buf ≡ acc
    → IsStored acc (true, (set (set buf (length acc) c) (length acc) 0, length acc + 1))
set-IsStored acc buf c size h e = record {
  ended = refl;
  cursor = refl;
  bytes =
      take-set (length acc) (set buf (length acc) c) 0
        (omega (arith, length-set buf (length acc) c))
      ∙ (ap (λ t. t ++ 0 ∷ []) (take-set_same (length acc) buf c) ∙ ap (λ t. t ++ 0 ∷ []) e);
  size =
      length-set (set buf (length acc) c) (length acc) 0 ∙ (length-set buf (length acc) c ∙ size);
}

read_line-kept :
    (line acc buf : List ℕ) (c : ℕ) (rest : List ℕ)
    → IsLine line
    → (c == 10 || c == 0) ≡ true
    → length buf ≡ buffer_size
    → length acc < buffer_size
    → take (length acc) buf ≡ acc
    → IsStored (kept acc line) (read_line buf (length acc) (line ++ c ∷ rest))
unfolding read_line
read_line-kept [] acc buf c rest _ stop size h e = rw stop (set-IsStored acc buf c size h e)
read_line-kept (b ∷ line) acc buf c rest (go, l) stop size h e =
    let more = length-append acc (b ∷ []) in
    let size1 = length-set buf (length acc) b ∙ size in
    elim (Bool-cases (leb buffer_size (length acc + 1))) [
      | inl full ↦
          rw (go, full)
            (read_line-kept line [] (set buf (length acc) b) c rest l stop size1 (omega arith) refl)
      | inr room ↦
          rw (go, room, sym more)
            (read_line-kept line (acc ++ b ∷ []) (set buf (length acc) b) c rest l stop size1
              (ground (arith, more, room))
              (ap (λ k. take k (set buf (length acc) b)) more
                ∙ (take-set (length acc) buf b (omega arith) ∙ ap (λ t. t ++ b ∷ []) e)))
    ]

-- A line and the byte that ends it: sp_iothread stores the line from the start of its buffer on, with a
-- terminator, and keeps the buffer's size. A line of 1024 bytes or more overwrites itself: the
-- bytes behind its last multiple of 1024 are what is left of it.
pub read_line-IsStored :
    (line buf : List ℕ) (c : ℕ) (rest : List ℕ)
    → IsLine line
    → (c == 10 || c == 0) ≡ true
    → length buf ≡ buffer_size
    → IsStored
        (drop (length line / buffer_size * buffer_size) line)
        (read_line buf 0 (line ++ c ∷ rest))
read_line-IsStored line buf c rest l stop size =
    let start : 0 + length line ≡ length line = omega arith in
    rw (← (kept-drop line [] (omega arith) ∙ ap (λ k. drop (k / 1024 * 1024) line) start))
      (read_line-kept line [] buf c rest l stop size (omega arith) refl)

-- The deadline is the time plus the timeout, its nanoseconds are at most a second, and they are less
-- than one, as the calls that wait want them, unless the two parts add up to exactly one second.
deadline_lem :
    (timeout_ms : ℕ) (cur : Timespec)
    → cur.tv_nsec < 1000000000
    → ((deadline timeout_ms cur).tv_sec * 1000000000 + (deadline timeout_ms cur).tv_nsec
        ≡ cur.tv_sec * 1000000000 + cur.tv_nsec + timeout_ms * 1000000)
      × ((deadline timeout_ms cur).tv_nsec ≤ 1000000000)
      × (((deadline timeout_ms cur).tv_nsec < 1000000000)
          ↔ (timeout_ms % 1000 * 1000000 + cur.tv_nsec ≢ 1000000000))
unfolding deadline
deadline_lem timeout_ms cur h = ground arith
