-- ===== src/Files/Write/Inside.antt =====
-- The memory that the memcpy of cmd_write and cmd_pub in main/cmd_filecmds.c does not touch.
use otdb.Base.{
  ℕ, ◌+◌, ◌-◌, ◌<◌, ◌≤◌, ◌≡◌, ◌∙◌, ap, List, ◌++◌, min, take, drop, length, arith, length-append,
  length-take, length-drop,
}
use otdb.Base.Int.{pos}
use otdb.Base.Splice.{splice, drop-drop, take_prefix, drop_prefix}
use otdb.Files.Write.{clip, copied}
use otdb.Files.Write.Exact.{copied-clip}

module _ (lo : ℕ) (ys xs : List ℕ) (low : lo + length ys ≤ length xs) where
  len : length (take lo xs) ≡ lo
  len = length-take lo xs ∙ omega arith

  length-splice : length (splice lo ys xs) ≡ length xs
  length-splice = omega (
    arith,
    length-append (take lo xs) (ys ++ drop (lo + length ys) xs),
    length-append ys (drop (lo + length ys) xs),
    len,
    length-drop (lo + length ys) xs,
  )

  take-splice : take lo (splice lo ys xs) ≡ take lo xs
  take-splice = take_prefix lo (take lo xs) (ys ++ drop (lo + length ys) xs) len

  drop-splice : (k : ℕ) → lo + length ys ≤ k → drop k (splice lo ys xs) ≡ drop k xs
  drop-splice k h =
      drop_prefix k (take lo xs) (ys ++ drop (lo + length ys) xs) (omega (arith, len))
      ∙ (drop_prefix (k - length (take lo xs)) ys (drop (lo + length ys) xs) (omega (arith, len))
          ∙ (drop-drop (k - length (take lo xs) - length ys) (lo + length ys) xs
              ∙ ap (λ j. drop j xs) (omega (arith, len))))

-- For data of any size and any range whose start is inside the allocation, the write keeps the
-- memory's length, the bytes before `lo`, those from the allocation on, and those from the larger of
-- `lo` and the range's end on.
pub copied-inside :
    (n lo hi alloc : ℕ) (bytes memory : List ℕ)
    → lo < alloc
    → alloc ≤ length memory
    → (length (copied lo (clip (pos n) lo (min hi alloc)) bytes memory) ≡ length memory)
      × (take lo (copied lo (clip (pos n) lo (min hi alloc)) bytes memory) ≡ take lo memory)
      × (drop alloc (copied lo (clip (pos n) lo (min hi alloc)) bytes memory) ≡ drop alloc memory)
      × (drop (lo + (hi - lo)) (copied lo (clip (pos n) lo (min hi alloc)) bytes memory)
          ≡ drop (lo + (hi - lo)) memory)
copied-inside n lo hi alloc bytes memory low big =
    let ys = take (min n (min hi alloc - lo)) bytes in
    let c : length ys ≤ min hi alloc - lo =
      omega (arith, length-take (min n (min hi alloc - lo)) bytes) in
    let fits : lo + length ys ≤ length memory = omega (arith, c) in
    rw (copied-clip n lo (min hi alloc) bytes memory) (
      length-splice lo ys memory fits,
      take-splice lo ys memory fits,
      drop-splice lo ys memory fits alloc (omega (arith, c)),
      drop-splice lo ys memory fits (lo + (hi - lo)) (omega (arith, c)),
    )
