-- ===== src/History.antt =====
-- The command history of main/cmdhistory.c and cmdhistory.h: `cmdhist`, ch_init, ch_contains,
-- ch_add, ch_remove, ch_next, ch_prev, ch_inc, ch_dec. A pointer into `history` is its offset. The
-- loops take fuel, and `none` says that it ran out.
pub mod Cursor
pub mod Reach
mod Tests
use otdb.Base.{
  ℕ, zero, suc, ◌+◌, ◌-◌, List, [], ◌∷◌, Bool, true, false, ◌&&◌, ◌||◌, not, Option, none, some,
  ltb, ◌==◌, if◌then◌else◌, get_or, set, replicate,
}
use otdb.Base.Int.{ℤ, pos, negsuc, ◌+ℤ◌, ◌-ℤ◌}
use otdb.Base.Maybe.{◌>>=◌}

abbrev pub cmd_histsize : ℕ
cmd_histsize = 1024

pub record Cmdhist : Type 0 where
  pub history : List ℕ
  pub putcur : ℕ
  pub getstart : ℕ
  pub getend : ℕ
  pub count : ℤ

pub ch_init : Cmdhist
ch_init = record {
  history = replicate cmd_histsize 0;
  putcur = 0;
  getstart = 0;
  getend = 0;
  count = pos 0;
}

-- The source returns `cmdcur`, not `cmdcur + 1`, where the end is not reached.
pub ch_inc : ℕ → ℕ
ch_inc cmdcur = if cmdcur + 1 == cmd_histsize then 0 else cmdcur

pub ch_dec : ℕ → ℕ
ch_dec cmdcur = if cmdcur == 0 then cmd_histsize - 1 else cmdcur - 1

-- `*cur`
abbrev pub at : Cmdhist → ℕ → ℕ
at ch cur = get_or ch.history cur 0

abbrev pub is_zero_int : ℤ → Bool
is_zero_int (pos n) = n == 0
is_zero_int (negsuc n) = false

-- The do-while loop of ch_remove.
pub remove_loop : ℕ → List ℕ → ℕ → ℕ → Option (List ℕ)
remove_loop zero hist oldptr cmdptr = none
remove_loop (suc f) hist oldptr cmdptr =
    let hist' = set hist cmdptr 0 in
    let next = ch_inc cmdptr in
    let rest = remove_loop f hist' oldptr next in
    if not (next == oldptr) && not (get_or hist' next 0 == 0) then rest else some hist'

pub ch_remove : Cmdhist → ℕ → Option Cmdhist
ch_remove ch cmdptr = do
  hist ← remove_loop cmd_histsize ch.history cmdptr cmdptr
  some (record ch { history = hist; count = ch.count -ℤ pos 1 })

-- The body of the do-while loop of ch_add, with the byte `c` at `cmdstr`.
pub add_byte : Cmdhist → ℕ → Option Cmdhist
add_byte ch c = do
  cleared ← if at ch ch.putcur == 0 then some ch else ch_remove ch ch.putcur
  some (record cleared {
    history = set cleared.history cleared.putcur c;
    putcur = ch_inc cleared.putcur;
  })

-- The loop of ch_add: each round reads one byte of `cmdstr`, whose end reads as 0.
pub add_loop : Cmdhist → List ℕ → Option Cmdhist
add_loop ch [] = add_byte ch 0
add_loop ch (c ∷ cmdstr) = do
  ch' ← add_byte ch c
  let rest = add_loop ch' cmdstr
  if not (ch'.putcur == ch'.getstart) && not (c == 0) then rest else some ch'

pub ch_add : Cmdhist → List ℕ → Option Cmdhist
ch_add ch cmdstr = do
  ch' ← add_loop (record ch { count = ch.count +ℤ pos 1; getstart = ch.putcur }) cmdstr
  some (record ch' { getend = ch'.putcur })

-- `while ((cur = ch_inc(ch, cur)) != ch->getstart && (*cur == 0) == blank);`
pub next_loop : ℕ → Cmdhist → Bool → ℕ → Option ℕ
next_loop zero ch blank cur = none
next_loop (suc f) ch blank cur =
    let cur' = ch_inc cur in
    let rest = next_loop f ch blank cur' in
    let going = if blank then at ch cur' == 0 else not (at ch cur' == 0) in
    if not (cur' == ch.getstart) && going then rest else some cur'

-- The result is the offset that ch_next returns; `none` inside is its null pointer.
pub ch_next : Cmdhist → Option (Cmdhist × Option ℕ)
ch_next ch = if is_zero_int ch.count then some (ch, none) else do
  next ← next_loop (cmd_histsize + 1) ch true ch.getend
  cur ← next_loop (cmd_histsize + 1) ch false next
  some (record ch { getstart = next; getend = cur }, some next)

-- `while ((getstart = ch_dec(ch, getstart)) != getend && (*getstart == 0) == blank);`
pub prev_loop : ℕ → Cmdhist → Bool → ℕ → Option ℕ
prev_loop zero ch blank cur = none
prev_loop (suc f) ch blank cur =
    let cur' = ch_dec cur in
    let rest = prev_loop f ch blank cur' in
    let going = if blank then at ch cur' == 0 else not (at ch cur' == 0) in
    if not (cur' == ch.getend) && going then rest else some cur'

pub ch_prev : Cmdhist → Option (Cmdhist × Option ℕ)
ch_prev ch = if is_zero_int ch.count then some (ch, none) else do
  cur ← prev_loop (cmd_histsize + 1) ch true ch.getstart
  back ← prev_loop (cmd_histsize + 1) ch false cur
  let start = if back == ch.getend then back else ch_inc back
  some (record ch { getstart = start; getend = cur }, some start)

-- `while (*cur != 0 && i++ < CMD_HISTSIZE) cur = ch_inc(ch, cur);`, or with `*cur == 0` where
-- `blank` is true. The result is the final `cur` and `i`.
pub skip_loop : ℕ → Cmdhist → Bool → ℕ → ℕ → Option (ℕ × ℕ)
skip_loop zero ch blank cur i = none
skip_loop (suc f) ch blank cur i =
    let rest = skip_loop f ch blank (ch_inc cur) (i + 1) in
    let going = if blank then at ch cur == 0 else not (at ch cur == 0) in
    if going then (if ltb i cmd_histsize then rest else some (cur, i + 1)) else some (cur, i)

-- One round of the do-while loop of ch_contains up to its test: the new `cur`, `i` and the offset
-- of `cscur` in `cmdstr` after the `++` of the test.
pub contains_round : Cmdhist → List ℕ → ℕ → ℕ → ℕ → Option (ℕ × ℕ × ℕ)
contains_round ch cmdstr cur cscur i =
    if at ch cur == get_or cmdstr cscur 0 then some (ch_inc cur, cscur + 1, i) else do
      (cur1, i1) ← skip_loop (cmd_histsize + 2) ch false cur i
      (cur2, i2) ← skip_loop (cmd_histsize + 2) ch true cur1 i1
      some (ch_inc cur2, 0, i2)

pub contains_loop : ℕ → Cmdhist → List ℕ → ℕ → ℕ → ℕ → Option Bool
contains_loop zero ch cmdstr cur cscur i = none
contains_loop (suc f) ch cmdstr cur cscur i = do
  (cur', cscur', i') ← contains_round ch cmdstr cur cscur i
  let rest = contains_loop f ch cmdstr cur' cscur' (i' + 1)
  let ended = get_or cmdstr cscur' 0 == 0
  if not ended && ltb (i' + 1) cmd_histsize
      then rest
      else some (ended && (at ch cur' == 0 || cur' == ch.getstart))

pub ch_contains : Cmdhist → List ℕ → Option Bool
ch_contains ch cmdstr =
    if is_zero_int ch.count
    then some false
    else contains_loop (cmd_histsize + 1) ch cmdstr ch.getstart 0 0

-- What the prompt asks of the history.
pub data Call : Type 0 where
  add : List ℕ → Call
  next prev : Call

-- One call, with the offset that it hands to the prompt.
pub call : Cmdhist → Call → Option (Cmdhist × Option ℕ)
call h (add cmdstr) = do h' ← ch_add h cmdstr; some (h', none)
call h next = ch_next h
call h prev = ch_prev h

pub run : Cmdhist → List Call → Option Cmdhist
run h [] = some h
run h (op ∷ ops) = do (h', shown) ← call h op; run h' ops
