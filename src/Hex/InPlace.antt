-- ===== src/Hex/InPlace.antt =====
-- cmd_hexnread of main/cmds.c with source and destination in one buffer, as cmd_read calls it on
-- the response of the device manager.
use native.Mathlib.Nat.{add-zero}
use native.Mathlib.Decide.{dec_lt}
use mathlib.Core.Path.{ap₂}
use otdb.Base.{
  ℕ, zero, suc, ◌+◌, ◌<◌, ◌≤◌, ◌≡◌, refl, List, [], ◌∷◌, arith, length, drop, set, get_or, inl, inr,
  Bool-cases, ◌==◌, ◌||◌, if◌then◌else◌, append_assoc, take-append-drop, ◌∙◌, true, false,
}
use otdb.Base.Splice.{splice, drop-set, take-set, drop-drop, get_or-drop, get_or_outside}
use otdb.Hex.{hex_byte, hexnread, hexnread_mem}

-- The step of cmd_hexnread by what it reads.
hexnread_step :
    (src : List ℕ) (n : ℕ)
    → hexnread src (suc n) ≡ (
        if get_or src 0 0 == 0 || get_or src 1 0 == 0
        then []
        else hex_byte (get_or src 0 0) (get_or src 1 0) ∷ hexnread (drop 2 src) n)
unfolding hexnread
hexnread_step [] n = refl
hexnread_step (hi ∷ []) n = ground arith
hexnread_step (hi ∷ lo ∷ src) n = refl

hexnread_none : (src : List ℕ) → hexnread src 0 ≡ []
unfolding hexnread
hexnread_none [] = refl
hexnread_none (x ∷ []) = refl
hexnread_none (x ∷ y ∷ src) = refl

module _ (buf : List ℕ) (r n : ℕ) where
  drop_step : hexnread (drop r buf) (suc n) ≡ (
      if get_or buf r 0 == 0 || get_or buf (r + 1) 0 == 0
      then []
      else hex_byte (get_or buf r 0) (get_or buf (r + 1) 0) ∷ hexnread (drop (r + 2) buf) n)
  drop_step = rw (hexnread_step, get_or-drop r 0 buf 0, get_or-drop r 1 buf 0, drop-drop, add-zero)

  drop_stop :
      (get_or buf r 0 == 0 || get_or buf (r + 1) 0 == 0) ≡ true → hexnread (drop r buf) (suc n) ≡ []
  drop_stop e = drop_step ∙ rw e

  drop_go :
      (get_or buf r 0 == 0 || get_or buf (r + 1) 0 == 0) ≡ false
      → hexnread (drop r buf) (suc n)
        ≡ hex_byte (get_or buf r 0) (get_or buf (r + 1) 0) ∷ hexnread (drop (r + 2) buf) n
  drop_go e = drop_step ∙ rw e

inside :
    (buf : List ℕ) (r : ℕ)
    → (get_or buf r 0 == 0 || get_or buf (r + 1) 0 == 0) ≡ false
    → r < length buf
inside buf r h = elim (dec_lt r (length buf)) [
  | yes p ↦ p
  | no p ↦ ground (arith, get_or_outside buf r 0)
]

-- A write at the cursor, and then a run behind it, is one run.
splice-set :
    (buf : List ℕ) (w v : ℕ) (out : List ℕ)
    → w < length buf
    → splice (w + 1) out (set buf w v) ≡ splice w (v ∷ out) buf
splice-set buf w v out h =
    let k : w + 1 + length out ≡ w + suc (length out) = omega arith in
    rw (take-set w buf v h, drop-set (w + 1 + length out) w buf v (omega arith), k, append_assoc)

splice_step :
    (buf : List ℕ) (w v : ℕ) (out : List ℕ)
    → w < length buf
    → ◌≡◌ {A = List ℕ × ℕ}
        (splice (w + 1) out (set buf w v), w + 1 + length out)
        (splice w (v ∷ out) buf, w + length (v ∷ out))
splice_step buf w v out h = ap₂ (λ a b. (a, b)) (splice-set buf w v out h) (omega arith)

-- Decoding in place at a write cursor that is not past the read cursor stores exactly the bytes
-- that decoding the original contents gives, as one run from `w` on; the rest of the buffer stays.
pub hexnread_mem-eq-splice :
    (n : ℕ) (buf : List ℕ) (r w : ℕ)
    → w ≤ r
    → let out = hexnread (drop r buf) n in
      hexnread_mem buf r w n ≡ (splice w out buf, w + length out)
unfolding hexnread_mem
hexnread_mem-eq-splice zero buf r w h = rw hexnread_none (rw (add-zero, take-append-drop))
hexnread_mem-eq-splice (suc n) buf r w h =
    elim (Bool-cases (get_or buf r 0 == 0 || get_or buf (r + 1) 0 == 0)) [
      | inl e ↦ rw (drop_stop buf r n e, e) (rw (add-zero, take-append-drop))
      | inr e ↦
          let v = hex_byte (get_or buf r 0) (get_or buf (r + 1) 0) in
          let here : w < length buf = omega (arith, inside buf r e) in
          rw (drop_go buf r n e, e)
            (hexnread_mem-eq-splice n (set buf w v) (r + 2) (w + 1) (omega arith)
              ∙ rw (drop-set (r + 2) w buf v (omega arith))
                  (splice_step buf w v (hexnread (drop (r + 2) buf) n) here))
    ]
