-- ===== src/Output/Fits.antt =====
-- Where cmd_jsonout_err of main/cmds.c writes.
use otdb.Base.{
  refl, sym, ℕ, zero, suc, ◌+◌, ◌-◌, ◌^◌, ◌<◌, ◌≤◌, ◌≡◌, ◌∙◌, ap, List, [], ◌∷◌, ◌++◌, true, arith,
  length, take, drop, length-append, append_assoc, length-take, min,
}
use otdb.Base.Int.{ℤ, pos}
use otdb.Base.Splice.{take-nil, take_all}
use otdb.Text.{snprintf}
use otdb.Output.{put_at, sub_size, err_text, jsonout_err}

length-snprintf_le : (n : ℕ) (text : List ℕ) → length (snprintf n text) ≤ n
unfolding snprintf
length-snprintf_le zero text = omega arith
length-snprintf_le (suc n) text =
    omega (arith, length-append (take n text) (0 ∷ []), length-take n text)

pub snprintf-fits : (n : ℕ) (text : List ℕ) → length text < n → snprintf n text ≡ text ++ 0 ∷ []
unfolding snprintf
snprintf-fits zero text h = absurd (omega arith)
snprintf-fits (suc n) text h = ap (λ t. t ++ 0 ∷ []) (take_all n text (omega arith))

take-min : (n : ℕ) (text : List ℕ) → take n text ≡ take (min (length text) n) text
take-min zero text = let none_left : min (length text) 0 ≡ 0 = omega arith in rw none_left refl
take-min (suc n) [] = sym (take-nil ℕ (min 0 (suc n)))
take-min (suc n) (c ∷ text) =
    let e : suc (min (length text) n) ≡ min (length (c ∷ text)) (suc n) = omega arith in
    ap (λ t. c ∷ t) (take-min n text) ∙ ap (λ k. take k (c ∷ text)) e

-- What snprintf stores: as much of the text as fits, and the terminator.
snprintf-cut :
    (n : ℕ) (text : List ℕ) → snprintf (suc n) text ≡ take (min (length text) n) text ++ 0 ∷ []
unfolding snprintf
snprintf-cut n text = ap (λ t. t ++ 0 ∷ []) (take-min n text)

-- With `json` set and a `dstmax` of at least 2 and below 2 ^ 64, cmd_jsonout_err stores the first
-- `dstmax - 2` bytes of the JSON text, all of it where it is shorter, and a terminator, leaves the
-- memory behind that as it was, and returns the length of the whole text.
jsonout_err-exact :
    (mem : List ℕ) (dstmax : ℕ) (rc : ℤ) (name : List ℕ)
    → 1 < dstmax
    → dstmax < 2 ^ 64
    → jsonout_err mem dstmax true rc name ≡ (
      take (min (length (err_text name rc)) (dstmax - 2)) (err_text name rc)
          ++ (0 ∷ drop (min (length (err_text name rc)) (dstmax - 2) + 1) mem),
      pos (length (err_text name rc)),
    )
unfolding jsonout_err put_at
jsonout_err-exact mem dstmax rc name h k =
    let text = err_text name rc in
    let n = min (length text) (dstmax - 2) in
    let s : sub_size dstmax 1 ≡ suc (dstmax - 2) = ground arith in
    let kept = length-append (take n text) (0 ∷ []) in
    ap (λ m. (m, pos (length text)))
      (rw (s, snprintf-cut (dstmax - 2) text)
        (append_assoc (take n text) (0 ∷ []) _
          ∙ ap (λ j. take n text ++ (0 ∷ drop j mem)) (omega (arith, kept, length-take n text))))
