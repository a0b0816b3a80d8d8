-- ===== src/Base/Splice.antt =====
-- Prefixes, suffixes and writes of lists.
use native.Mathlib.Nat.{zero-add, suc-add, sub-zero}
use otdb.Base.{
  ℕ, zero, suc, ◌+◌, ◌-◌, ◌∙◌, ◌<◌, ◌≤◌, ◌≡◌, refl, ap, List, [], ◌∷◌, ◌++◌, arith, length, take,
  drop, set, get_or,
}

pub take-nil {ℓ} : (A : Type ℓ) (n : ℕ) → take {A = A} n [] ≡ []
take-nil A zero = refl
take-nil A (suc n) = refl

pub drop-nil {ℓ} : (A : Type ℓ) (n : ℕ) → drop {A = A} n [] ≡ []
drop-nil A zero = refl
drop-nil A (suc n) = refl

module _ {ℓ} {A : Type ℓ} where
  pub take_all : (n : ℕ) (xs : List A) → length xs ≤ n → take n xs ≡ xs
  take_all zero [] h = refl
  take_all zero (x ∷ xs) h = absurd (omega arith)
  take_all (suc n) [] h = refl
  take_all (suc n) (x ∷ xs) h = ap (λ t. x ∷ t) (take_all n xs (omega arith))

  pub drop-set : (n w : ℕ) (xs : List A) (v : A) → w < n → drop n (set xs w v) ≡ drop n xs
  drop-set zero w xs v h = absurd (omega arith)
  drop-set (suc n) w [] v h = refl
  drop-set (suc n) zero (x ∷ xs) v h = refl
  drop-set (suc n) (suc w) (x ∷ xs) v h = drop-set n w xs v (omega arith)

  pub take-set :
      (w : ℕ) (xs : List A) (v : A)
      → w < length xs
      → take (w + 1) (set xs w v) ≡ take w xs ++ v ∷ []
  take-set w [] v h = absurd (omega arith)
  take-set zero (x ∷ xs) v h = refl
  take-set (suc w) (x ∷ xs) v h = rw suc-add (ap (λ t. x ∷ t) (take-set w xs v (omega arith)))

  pub drop-drop : (m n : ℕ) (xs : List A) → drop m (drop n xs) ≡ drop (n + m) xs
  drop-drop m zero xs = rw zero-add
  drop-drop m (suc n) [] = rw (drop-nil, drop-nil)
  drop-drop m (suc n) (x ∷ xs) = rw suc-add (drop-drop m n xs)

  pub get_or-drop : (n i : ℕ) (xs : List A) (d : A) → get_or (drop n xs) i d ≡ get_or xs (n + i) d
  get_or-drop n i [] d = rw drop-nil
  get_or-drop zero i (x ∷ xs) d = rw zero-add
  get_or-drop (suc n) i (x ∷ xs) d = rw suc-add (get_or-drop n i xs d)

  pub get_or_outside : (xs : List A) (i : ℕ) (d : A) → length xs ≤ i → get_or xs i d ≡ d
  get_or_outside [] i d h = refl
  get_or_outside (x ∷ xs) zero d h = absurd (omega arith)
  get_or_outside (x ∷ xs) (suc i) d h = get_or_outside xs i d (omega arith)

  -- A list is any prefix of it, followed by the rest; where a run replaces a part, it is spliced in.
  abbrev pub splice : ℕ → List A → List A → List A
  splice w ys xs = take w xs ++ (ys ++ drop (w + length ys) xs)

  pub take-append_le :
      (n : ℕ) (xs ys : List A) → length xs ≤ n → take n (xs ++ ys) ≡ xs ++ take (n - length xs) ys
  take-append_le n [] ys h = rw sub-zero
  take-append_le zero (x ∷ xs) ys h = absurd (omega arith)
  take-append_le (suc n) (x ∷ xs) ys h =
      ap (λ t. x ∷ t)
        (take-append_le n xs ys (omega arith) ∙ ap (λ k. xs ++ take k ys) (omega arith))

  pub drop_prefix :
      (n : ℕ) (xs ys : List A) → length xs ≤ n → drop n (xs ++ ys) ≡ drop (n - length xs) ys
  drop_prefix n [] ys h = rw sub-zero
  drop_prefix zero (x ∷ xs) ys h = absurd (omega arith)
  drop_prefix (suc n) (x ∷ xs) ys h =
      drop_prefix n xs ys (omega arith) ∙ ap (λ k. drop k ys) (omega arith)

  pub take_prefix : (n : ℕ) (xs ys : List A) → length xs ≡ n → take n (xs ++ ys) ≡ xs
  take_prefix zero [] ys h = refl
  take_prefix zero (x ∷ xs) ys h = absurd (omega arith)
  take_prefix (suc n) [] ys h = absurd (omega arith)
  take_prefix (suc n) (x ∷ xs) ys h = ap (λ t. x ∷ t) (take_prefix n xs ys (omega arith))
