-- ===== src/DevList/Fits.antt =====
-- The loop of iterator_uids in main/iterator.c with the action of dev-ls, where all texts fit.
use otdb.Base.{
  ℕ, ◌+◌, ◌-◌, ◌<◌, ◌≤◌, ◌≡◌, ◌∙◌, refl, sym, ap, List, [], ◌∷◌, ◌++◌, Bool, false, length, drop,
  arith, append_assoc, length-append,
}
use otdb.Base.Int.{ℤ, pos, ◌-ℤ◌, ltb_ℤ}
use otdb.Text.{snprintf}
use otdb.Output.{put_at}
use otdb.Output.Fits.{snprintf-fits}
use otdb.DevList.{size_of, iterate, device_text, devls_action}

pub put_at-append :
    (pre bs tail : List ℕ)
    → put_at (length pre) bs (pre ++ tail) ≡ pre ++ (bs ++ drop (length bs) tail)
unfolding put_at
put_at-append [] bs tail = refl
put_at-append (p ∷ pre) bs tail = ap (λ t. p ∷ t) (put_at-append pre bs tail)

-- A text that fits is stored with its terminator, behind what is there.
pub stored-append :
    (pre t tail : List ℕ) (limit : ℕ)
    → length t < limit
    → put_at (length pre) (snprintf limit t) (pre ++ tail)
      ≡ (pre ++ t) ++ (0 ∷ drop (length t + 1) tail)
stored-append pre t tail limit h = rw (snprintf-fits limit t h) (
    put_at-append pre (t ++ 0 ∷ []) tail
    ∙ (ap (λ k. pre ++ ((t ++ 0 ∷ []) ++ drop k tail)) (length-append t (0 ∷ []))
        ∙ (ap (λ u. pre ++ u) (append_assoc t (0 ∷ []) (drop (length t + 1) tail))
            ∙ sym (append_assoc pre t (0 ∷ drop (length t + 1) tail)))))

-- The texts of the devices, one after the other.
abbrev pub texts : Bool → ℕ → List ℕ → List ℕ
texts json count [] = []
texts json count (device ∷ devices) =
    device_text json (count + 1) device ++ texts json (count + 1) devices

-- All texts are stored behind `pre`, and the number is their length.
pub record Listed (json : Bool) (devices : List ℕ) (count out : ℕ) (pre : List ℕ) (r : ℤ × List ℕ)
    : Type 0 where
  pub after : List ℕ
  pub result :
      r
      ≡ (pos (out + length (texts json count devices)), pre ++ (texts json count devices ++ after))

pub not_below : (n : ℕ) → ltb_ℤ (pos n) (pos 0) ≡ false
not_below n = ground arith

pub minus_pos : (l k : ℕ) → k ≤ l → pos l -ℤ pos k ≡ pos (l - k)
unfolding ◌-ℤ◌
minus_pos l k h = ground arith

pub iterate-Listed :
    (json : Bool) (devices : List ℕ) (count limit out : ℕ) (pre tail : List ℕ)
    → length (texts json count devices) < limit
    → Listed json devices count out pre
        (iterate (devls_action json) devices count (pos limit) (length pre) out (pre ++ tail))
unfolding iterate devls_action size_of
iterate-Listed json [] count limit out pre tail h = record {
  after = tail;
  result = ap (λ n. (pos n, pre ++ tail)) (omega arith);
}
iterate-Listed json (device ∷ devices) count limit out pre tail h =
    let t = device_text json (count + 1) device in
    let k = length t in
    let all = length-append t (texts json (count + 1) devices) in
    let rest =
      iterate-Listed json devices (count + 1) (limit - length t) (out + length t) (pre ++ t)
        (0 ∷ drop (length t + 1) tail) (omega (arith, all)) in
    record {
      after = rest.after;
      result =
          rw
            (
              not_below k,
              not_below limit,
              stored-append pre t tail limit (omega (arith, all)),
              minus_pos limit k (omega (arith, all)),
              sym (length-append pre t),
            )
            (rest.result
              ∙ (ap (λ n. (pos n, (pre ++ t) ++ (texts json (count + 1) devices ++ rest.after)))
                    (omega (arith, all))
                  ∙ ap (λ u. (pos (out + length (t ++ texts json (count + 1) devices)), u))
                      (append_assoc pre t (texts json (count + 1) devices ++ rest.after)
                        ∙ ap (λ u. pre ++ u)
                            (sym (append_assoc t (texts json (count + 1) devices) rest.after)))));
    }
