-- ===== src/History/Cursor.antt =====
-- The loops of ch_contains in main/cmdhistory.c end: their counter bounds them.
use otdb.Base.{
  ℕ, zero, suc, ◌+◌, ◌<◌, ◌≤◌, ◌≡◌, List, Bool, true, false, some, arith, ltb, ◌==◌, get_or,
  Bool-cases, inl, inr, not, ◌&&◌, ◌||◌, if◌then◌else◌,
}
use otdb.History.{
  Cmdhist, cmd_histsize, at, is_zero_int, ch_inc, skip_loop, contains_round, contains_loop,
  ch_contains,
}

-- The counter never falls in a run of skips, and the run ends while fuel and counter pass the size.
skip_total :
    (f : ℕ) (ch : Cmdhist) (blank : Bool) (cur i : ℕ)
    → cmd_histsize < i + f
    → 0 < f
    → (out : ℕ × ℕ) × (skip_loop f ch blank cur i ≡ some out) × (i ≤ out.1)
unfolding skip_loop
skip_total zero ch blank cur i h p = absurd (omega arith)
skip_total (suc f) ch blank cur i h p =
    elim (Bool-cases (if blank then at ch cur == 0 else not (at ch cur == 0))) [
      | inr stop ↦ ((cur, i), rw stop, omega arith)
      | inl go ↦ elim (Bool-cases (ltb i cmd_histsize)) [
        | inr last ↦ ((cur, i + 1), rw (go, last), omega arith)
        | inl more ↦
            let (out, e, le) =
              skip_total f ch blank (ch_inc cur) (i + 1) (omega arith) (ground arith) in
            (out, rw (go, more) e, omega arith)
      ]
    ]

round_total :
    (ch : Cmdhist) (cmdstr : List ℕ) (cur cscur i : ℕ)
    → (out : ℕ × ℕ × ℕ) × (contains_round ch cmdstr cur cscur i ≡ some out) × (i ≤ out.2)
unfolding contains_round
round_total ch cmdstr cur cscur i = elim (Bool-cases (at ch cur == get_or cmdstr cscur 0)) [
  | inl same ↦ ((ch_inc cur, cscur + 1, i), rw same, omega arith)
  | inr differs ↦
      let (a, p, le) = skip_total (cmd_histsize + 2) ch false cur i (omega arith) (omega arith) in
      let (b, q, le') = skip_total (cmd_histsize + 2) ch true a.0 a.1 (omega arith) (omega arith) in
      ((ch_inc b.0, 0, b.1), rw (differs, p) (rw q), omega arith)
]

contains_total :
    (f : ℕ) (ch : Cmdhist) (cmdstr : List ℕ) (cur cscur i : ℕ)
    → cmd_histsize < i + f
    → 0 < f
    → (found : Bool) × (contains_loop f ch cmdstr cur cscur i ≡ some found)
unfolding contains_loop
contains_total zero ch cmdstr cur cscur i h p = absurd (omega arith)
contains_total (suc f) ch cmdstr cur cscur i h p =
    let (out, e, le) = round_total ch cmdstr cur cscur i in
    let ended = get_or cmdstr out.1 0 == 0 in
    elim (Bool-cases (not ended && ltb (out.2 + 1) cmd_histsize)) [
      | inr stop ↦ (ended && (at ch out.0 == 0 || out.0 == ch.getstart), rw e (rw stop))
      | inl more ↦
          let (found, q) =
            contains_total f ch cmdstr out.0 out.1 (out.2 + 1) (omega arith) (ground arith) in
          (found, rw e (rw more q))
    ]

-- ch_contains ends and returns, on every history and every string.
pub ch_contains-total :
    (ch : Cmdhist) (cmdstr : List ℕ) → (found : Bool) × (ch_contains ch cmdstr ≡ some found)
unfolding ch_contains
ch_contains-total ch cmdstr = elim (Bool-cases (is_zero_int ch.count)) [
  | inl empty ↦ (false, rw empty)
  | inr some_stored ↦
      let (found, e) =
        contains_total (cmd_histsize + 1) ch cmdstr ch.getstart 0 0 (omega arith) (omega arith) in
      (found, rw some_stored e)
]
