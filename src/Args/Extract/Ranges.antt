-- ===== src/Args/Extract/Ranges.antt =====
-- The -r option of main/cmds.c: "X:Y" and its short forms.
use otdb.Base.{ℕ, ◌<◌, ◌≡◌, refl, List, [], ◌∷◌, ◌++◌, true, false, none, some, arith, ◌==◌}
use otdb.Text.{show_dec}
use otdb.Text.Numbers.{plain, ArePlain, show_dec-ArePlain, show_dec-cons, atoi-show_dec}
use otdb.Args.{Arglist, cont, low_bits, drop_colons, token, first_token, strtok_colon}
use otdb.Args.Extract.{bound, put_range}

plain_colon : (c : ℕ) → plain c ≡ true → (c == b':') ≡ false
unfolding plain
plain_colon c h = ground arith

token-plain : (s t : List ℕ) → ArePlain s → token (s ++ b':' ∷ t) ≡ (s, t)
unfolding token
token-plain [] t h = refl
token-plain (c ∷ s) t h = rw (plain_colon c h.0, token-plain s t h.1)

token-plain_end : (s : List ℕ) → ArePlain s → token s ≡ (s, [])
unfolding token
token-plain_end [] h = refl
token-plain_end (c ∷ s) h = rw (plain_colon c h.0, token-plain_end s h.1)

strtok_colon-token :
    (s t : List ℕ) (d : ℕ) (u : List ℕ)
    → s ≡ d ∷ u
    → ArePlain s
    → strtok_colon (s ++ b':' ∷ t) ≡ (some s, t)
unfolding strtok_colon drop_colons first_token
strtok_colon-token [] t d u e h = cc
strtok_colon-token (c ∷ s) t d u e h = rw (plain_colon c h.0) (rw (token-plain (c ∷ s) t h))

strtok_colon-end :
    (s : List ℕ) (d : ℕ) (u : List ℕ) → s ≡ d ∷ u → ArePlain s → strtok_colon s ≡ (some s, [])
unfolding strtok_colon drop_colons first_token
strtok_colon-end [] d u e h = cc
strtok_colon-end (c ∷ s) d u e h = rw (plain_colon c h.0) (rw (token-plain_end (c ∷ s) h))

strtok_colon-show :
    (n : ℕ) (t : List ℕ) → strtok_colon (show_dec n ++ b':' ∷ t) ≡ (some (show_dec n), t)
strtok_colon-show n t =
    let (d, u, e) = show_dec-cons n in strtok_colon-token (show_dec n) t d u e (show_dec-ArePlain n)

strtok_colon-show_end : (n : ℕ) → strtok_colon (show_dec n) ≡ (some (show_dec n), [])
strtok_colon-show_end n =
    let (d, u, e) = show_dec-cons n in strtok_colon-end (show_dec n) d u e (show_dec-ArePlain n)

bound-show : (default n : ℕ) → n < 65536 → bound default (some (show_dec n)) ≡ n
unfolding bound low_bits
bound-show default n h = rw (atoi-show_dec n) (omega arith)

bound-none : bound 65535 none ≡ 65535
unfolding bound
bound-none = refl

strtok_colon_nil : strtok_colon [] ≡ (none, [])
unfolding strtok_colon drop_colons first_token
strtok_colon_nil = refl

-- A range option that prints two offsets below 65536 with a colon between gives these offsets; with
-- the second left off, with or without the colon, the end is 65535.
put_range-show :
    (a : Arglist) (lo hi : ℕ)
    → lo < 65536
    → hi < 65536
    → (put_range a (some (show_dec lo ++ b':' ∷ show_dec hi))
        ≡ cont (record a { range_lo = lo; range_hi = hi }))
      × (put_range a (some (show_dec lo)) ≡ cont (record a { range_lo = lo; range_hi = 65535 }))
      × (put_range a (some (show_dec lo ++ b':' ∷ []))
          ≡ cont (record a { range_lo = lo; range_hi = 65535 }))
unfolding put_range
put_range-show a lo hi h k = (
  rw (
    strtok_colon-show lo (show_dec hi),
    strtok_colon-show_end hi,
    bound-show 0 lo h,
    bound-show 65535 hi k,
  ),
  rw (strtok_colon-show_end lo, strtok_colon_nil, bound-show 0 lo h, bound-none),
  rw (strtok_colon-show lo [], strtok_colon_nil, bound-show 0 lo h, bound-none),
)
