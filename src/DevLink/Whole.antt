-- ===== src/DevLink/Whole.antt =====
-- The command line of dm_xnprintf in main/dm_printf.c is whole or refused, but for its last byte.
use otdb.Base.{
  if◌then◌else◌, ℕ, zero, suc, ◌+◌, ◌-◌, ◌*◌, ◌/◌, ◌<◌, ◌≤◌, ◌≡◌, ◌∙◌, refl, sym, ap, List, [], ◌∷◌,
  ◌++◌, Option, none, some, arith, length, take, ltb, ◌==◌, append_assoc, length-append, min,
  length-take, Bool-cases, inl, inr,
}
use otdb.Base.Branch.{if-both}
use otdb.Base.Maybe.{◌>>=◌}
use otdb.Base.Splice.{take_all, take-append_le}
use otdb.Text.{codes, snprintf}
use otdb.Hex.{hexwrite, hexnwrite}
use otdb.Hex.Roundtrip.{hexnwrite-eq-hexwrite, hexwrite-count, length-hexwrite}
use otdb.DevLink.{AuthLevel, auth_name, bytes_le, Line, add_text, add_uid, xnode_line}

-- The text where it has room for its terminator; at an exact fit its last byte is lost to the
-- terminator; nothing where it does not fit.
abbrev pub cut_last : List ℕ → List ℕ
cut_last text = take (length text - 1) text ++ 0 ∷ []

pub record Sends (full : List ℕ) (l : Line) (r : Option (List ℕ)) : Type 0 where
  pub fits : length full < l.1 → r ≡ some (l.0 ++ full)
  pub exact : length full ≡ l.1 → r ≡ some (l.0 ++ cut_last full)
  pub over : l.1 < length full → r ≡ none

module _ (t : List ℕ) (out : List ℕ) (l : ℕ) where
  add_text-fits : length t < l → add_text t (out, l) ≡ some (out ++ t, l - length t)
  unfolding add_text
  add_text-fits h = ground arith

  add_text-exact : length t ≡ l → add_text t (out, l) ≡ some (out ++ snprintf l t, 0)
  unfolding add_text
  add_text-exact h = ground arith

  add_text-over : l < length t → add_text t (out, l) ≡ none
  unfolding add_text
  add_text-over h = ground arith

cut_last-append : (t full : List ℕ) → 0 < length full → cut_last (t ++ full) ≡ t ++ cut_last full
cut_last-append t full h =
    ap (λ u. u ++ 0 ∷ [])
      (take-append_le (length (t ++ full) - 1) t full (omega (arith, length-append t full))
        ∙ ap (λ k. t ++ take k full) (omega (arith, length-append t full)))
    ∙ append_assoc t (take (length full - 1) full) (0 ∷ [])

module _ (full : List ℕ) (k : Line → Option (List ℕ)) (some_left : 0 < length full)
    (step : (l : Line) → Sends full l (k l)) (t : List ℕ) where
  add_text-Sends : (out : List ℕ) (l : ℕ) → Sends (t ++ full) (out, l) (add_text t (out, l) >>= k)
  add_text-Sends out l = record {
    fits = λ h. rw (add_text-fits t out l (omega (arith, length-append t full))) (
        (step (out ++ t, l - length t)).fits (omega (arith, length-append t full))
        ∙ ap some (append_assoc out t full));
    exact = λ h. rw (add_text-fits t out l (omega (arith, length-append t full))) (
        (step (out ++ t, l - length t)).exact (omega (arith, length-append t full))
        ∙ ap some (
            append_assoc out t (cut_last full)
            ∙ ap (λ u. out ++ u) (sym (cut_last-append t full some_left))));
    over = λ h. elim (Bool-cases (ltb (length t) l)) [
      | inl e ↦
          rw (add_text-fits t out l (ground arith))
            ((step (out ++ t, l - length t)).over (ground (arith, length-append t full)))
      | inr e ↦ elim (Bool-cases (length t == l)) [
        | inl f ↦
            rw (add_text-exact t out l (ground arith))
              ((step (out ++ snprintf l t, 0)).over some_left)
        | inr f ↦ rw (add_text-over t out l (ground arith)) refl
      ]
    ];
  }

snprintf-full : (t : List ℕ) (l : ℕ) → 0 < length t → length t ≡ l → snprintf l t ≡ cut_last t
unfolding snprintf
snprintf-full t zero p h = absurd (omega arith)
snprintf-full t (suc l) p h = ap (λ k. take k t ++ 0 ∷ []) (omega arith)

-- The last piece.
add_text-end : (t : List ℕ) (l : Line) → 0 < length t → Sends t l (add_text t l >>= λ e. some e.0)
add_text-end t (out, l) p = record {
  fits = λ h. rw (add_text-fits t out l h) refl;
  exact = λ h. rw (add_text-exact t out l h) (ap (λ u. some (out ++ u)) (snprintf-full t l p h));
  over = λ h. rw (add_text-over t out l h) refl;
}

length-bytes_le : (k n : ℕ) → length (bytes_le k n) ≡ k
unfolding bytes_le
length-bytes_le zero n = refl
length-bytes_le (suc k) n = omega (arith, length-bytes_le k (n / 256))

-- The sixteen digits of a device's identity.
abbrev pub uid_text : ℕ → List ℕ
uid_text uid = take 16 (hexwrite (bytes_le 8 uid)).0

hexnwrite-count : (uid l : ℕ) → (hexnwrite (bytes_le 8 uid) l).1 ≡ 2 * min (l / 2) 8
hexnwrite-count uid l = rw (hexnwrite-eq-hexwrite (bytes_le 8 uid) l) (
    hexwrite-count (take (l / 2) (bytes_le 8 uid))
    ∙ ap (λ k. 2 * k)
        (length-take (l / 2) (bytes_le 8 uid) ∙ ap (min (l / 2)) (length-bytes_le 8 uid)))

add_uid-room :
    (uid : ℕ) (out : List ℕ) (l : ℕ) → 16 ≤ l → add_uid uid (out, l) ≡ (out ++ uid_text uid, l - 16)
unfolding add_uid
add_uid-room uid out l h =
    let n : (hexnwrite (bytes_le 8 uid) l).1 ≡ 16 = omega (arith, hexnwrite-count uid l) in
    let w : (hexnwrite (bytes_le 8 uid) l).0 ≡ (hexwrite (bytes_le 8 uid)).0 =
      ap (λ r. r.0)
        (hexnwrite-eq-hexwrite (bytes_le 8 uid) l
          ∙ ap hexwrite
              (take_all (l / 2) (bytes_le 8 uid) (omega (arith, length-bytes_le 8 uid)))) in
    rw (n, w) refl

add_uid-tight : (uid : ℕ) (out : List ℕ) (l : ℕ) → l < 16 → (add_uid uid (out, l)).1 < 2
unfolding add_uid
add_uid-tight uid out l h = omega (arith, hexnwrite-count uid l)

length-uid_text : (uid : ℕ) → length (uid_text uid) ≡ 16
length-uid_text uid =
    length-take 16 (hexwrite (bytes_le 8 uid)).0
    ∙ omega (arith, length-hexwrite (bytes_le 8 uid), length-bytes_le 8 uid)

module _ (uid : ℕ) (full : List ℕ) (k : Line → Option (List ℕ)) (left : 1 < length full)
    (step : (l : Line) → Sends full l (k l)) where
  len : length (uid_text uid ++ full) ≡ 16 + length full
  len = length-append (uid_text uid) full ∙ omega (arith, length-uid_text uid)

  add_uid-Sends :
      (out : List ℕ) (l : ℕ) → Sends (uid_text uid ++ full) (out, l) (k (add_uid uid (out, l)))
  add_uid-Sends out l = record {
    fits = λ h. rw (add_uid-room uid out l (omega (arith, len))) (
        (step (out ++ uid_text uid, l - 16)).fits (omega (arith, len))
        ∙ ap some (append_assoc out (uid_text uid) full));
    exact = λ h. rw (add_uid-room uid out l (omega (arith, len))) (
        (step (out ++ uid_text uid, l - 16)).exact (omega (arith, len))
        ∙ ap some (
            append_assoc out (uid_text uid) (cut_last full)
            ∙ ap (λ u. out ++ u) (sym (cut_last-append (uid_text uid) full (omega arith)))));
    over = λ h. elim (Bool-cases (ltb l 16)) [
      | inl e ↦
          (step (add_uid uid (out, l))).over
            (omega (arith, left, add_uid-tight uid out l (ground arith)))
      | inr e ↦
          rw (add_uid-room uid out l (ground arith))
            ((step (out ++ uid_text uid, l - 16)).over (ground (arith, len)))
    ];
  }

-- The text of the whole command line.
abbrev pub xnode_text : AuthLevel → ℕ → List ℕ → List ℕ
xnode_text auth uid cmd =
    (codes "xnode " ++ (auth_name auth ++ codes " ["))
    ++ (uid_text uid ++ (codes "] \"" ++ (cmd ++ codes "\"")))

xnode_line-Sends :
    (auth : AuthLevel) (uid : ℕ) (cmd : List ℕ) (dstmax : ℕ)
    → Sends (xnode_text auth uid cmd) ([], dstmax) (xnode_line auth uid cmd dstmax)
unfolding xnode_line
xnode_line-Sends auth uid cmd dstmax =
    add_text-Sends (uid_text uid ++ (codes "] \"" ++ (cmd ++ codes "\"")))
      (λ a. add_text (codes "] \"") (add_uid uid a) >>= λ c.
        add_text cmd c >>= λ d. add_text (codes "\"") d >>= λ e. some e.0)
      (omega (
        arith,
        length-append (uid_text uid) (codes "] \"" ++ (cmd ++ codes "\"")),
        length-uid_text uid,
      ))
      (λ a.
        add_uid-Sends uid (codes "] \"" ++ (cmd ++ codes "\""))
          (λ b. add_text (codes "] \"") b >>= λ c.
            add_text cmd c >>= λ d. add_text (codes "\"") d >>= λ e. some e.0)
          (omega (arith, length-append (codes "] \"") (cmd ++ codes "\"")))
          (λ b.
            add_text-Sends (cmd ++ codes "\"")
              (λ c. add_text cmd c >>= λ d. add_text (codes "\"") d >>= λ e. some e.0)
              (omega (arith, length-append cmd (codes "\"")))
              (λ c.
                add_text-Sends (codes "\"") (λ d. add_text (codes "\"") d >>= λ e. some e.0)
                  (omega arith) (λ d. add_text-end (codes "\"") d (omega arith)) cmd c.0 c.1)
              (codes "] \"") b.0 b.1)
          a.0 a.1)
      (codes "xnode " ++ (auth_name auth ++ codes " [")) [] dstmax

-- dm_xnprintf hands on the whole command line where it is shorter than `dstmax`, and nothing where it
-- is longer. At exactly `dstmax` bytes it goes on without its closing quote.
pub xnode_line-exact :
    (auth : AuthLevel) (uid : ℕ) (cmd : List ℕ) (dstmax : ℕ)
    → xnode_line auth uid cmd dstmax ≡ (
        if ltb (length (xnode_text auth uid cmd)) dstmax
        then some (xnode_text auth uid cmd)
        else (if length (xnode_text auth uid cmd) == dstmax
            then some (cut_last (xnode_text auth uid cmd))
            else none))
xnode_line-exact auth uid cmd dstmax =
    let text = xnode_text auth uid cmd in
    let sends = xnode_line-Sends auth uid cmd dstmax in
    sym (
      if-both (λ r. r ≡ xnode_line auth uid cmd dstmax) (ltb (length text) dstmax) _ _
        (λ e. sym (sends.fits (ground arith)))
        (λ e.
          if-both (λ r. r ≡ xnode_line auth uid cmd dstmax) (length text == dstmax) _ _
            (λ f. sym (sends.exact (ground arith))) (λ f. sym (sends.over (ground arith)))))
