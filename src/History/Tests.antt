-- ===== src/History/Tests.antt =====
-- Runs of main/cmdhistory.c, and the theorems at concrete inputs.
use otdb.Base.{◌≡◌, refl, List, [], ◌∷◌, Bool, true, false, some, replicate}
use otdb.Base.Int.{pos, ◌+ℤ◌, ◌-ℤ◌}
use otdb.History.{
  Cmdhist, ch_init, ch_inc, ch_dec, ch_remove, remove_loop, add_byte, add_loop, ch_add, next_loop,
  ch_next, skip_loop, contains_round, contains_loop, ch_contains, prev_loop, ch_prev, Call, add,
  next, prev, run, call,
}
use otdb.History.Cursor.{ch_contains-total}
use otdb.History.Reach.{last_byte, history_keeps_one_byte}

abbrev session : List Call
session = add (b'l' ∷ b's' ∷ []) ∷ next ∷ add (b'r' ∷ b'h' ∷ []) ∷ prev ∷ []

abbrev after_session : Cmdhist
after_session = record {
  history = b'r' ∷ replicate 1023 0;
  putcur = 0;
  getstart = 0;
  getend = 0;
  count = pos 1;
}

session_runs : run ch_init session ≡ some after_session
unfolding run call ch_init ch_add add_loop add_byte ch_remove remove_loop ch_inc ch_dec ch_next
    next_loop ch_prev prev_loop ◌+ℤ◌ ◌-ℤ◌
session_runs = refl

contains_first : ch_contains after_session (b'r' ∷ []) ≡ some true
unfolding ch_contains contains_loop contains_round skip_loop ch_inc
contains_first = refl

contains_whole : ch_contains after_session (b'r' ∷ b'h' ∷ []) ≡ some false
unfolding ch_contains contains_loop contains_round skip_loop ch_inc
contains_whole = refl

history_keeps_one_byte_example :
    (h : Cmdhist) × (run ch_init session ≡ some h)
    × (h.putcur ≡ 0)
    × (h.getstart ≡ 0)
    × (h.getend ≡ 0)
    × (h.history ≡ last_byte 0 session ∷ replicate 1023 0)
history_keeps_one_byte_example = history_keeps_one_byte session

ch_contains-total_example :
    (found : Bool) × (ch_contains after_session (b'r' ∷ b'h' ∷ []) ≡ some found)
ch_contains-total_example = ch_contains-total after_session (b'r' ∷ b'h' ∷ [])
