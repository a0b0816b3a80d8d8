-- ===== src/DevMgr.antt =====
-- The command exchange with the device manager over its socket: the JSON readers and
-- sub_devmgr_socket of main/cmd_devmgr.c. A message is what cJSON finds in it, and an event is what
-- the socket and the clock give to one round of the loop.
pub mod Heard
pub mod Steps
pub mod Answer
pub mod Timeout
mod Tests
use otdb.Base.{
  ℕ, zero, suc, ◌+◌, ◌-◌, ◌^◌, List, [], ◌∷◌, ◌++◌, Bool, true, false, not, ◌&&◌, Option, none,
  some, length, take, drop, ltb, ◌==◌, if◌then◌else◌, min,
}
use otdb.Base.Int.{ℤ, pos, negsuc, ◌+ℤ◌, ◌-ℤ◌, pos_part, neg_part, ltb_ℤ, sub_ℕ}
use otdb.Base.Bytes.{bytes_eq}
use otdb.Text.{codes}
use otdb.Args.{low_bits}

-- The members of the "data" object, where they are numbers. `frame` is `some none` where it is not a
-- string.
pub record Payload : Type 0 where
  pub err : Option ℤ
  pub sid : Option ℤ
  pub qual : Option ℤ
  pub frame : Option (Option (List ℕ))

-- A parsed message: its "type" where it is a string, its "data" where it is an object.
pub record Message : Type 0 where
  pub kind : Option (List ℕ)
  pub payload : Option Payload

pub data Received : Type 0 where
  nothing not_json : Received
  message : Message → Received

-- `elapsed` is the milliseconds since `ref`, or `none` where clock_gettime fails; `sent` says whether
-- sp_sendcmd succeeds, where the round ends in sending the command again.
pub record Event : Type 0 where
  pub received : Received
  pub elapsed : Option ℕ
  pub sent : Bool

unfoldable pub is_kind : Option (List ℕ) → List ℕ → Bool
is_kind none typename = false
is_kind (some kind) typename = bytes_eq kind typename

-- sub_json_gettype, as a test
unfoldable pub gettype : Message → List ℕ → Bool
gettype top typename = is_kind top.kind typename

unfoldable pub number_or : ℤ → Option ℤ → ℤ
number_or d none = d
number_or d (some n) = n

-- The error and `*sid` of sub_json_getack.
unfoldable pub ack_of : ℕ → Option ℤ → Option ℤ → ℤ × ℕ
ack_of sid none sidval = (negsuc 0, sid)
ack_of sid (some err) sidval = (err, low_bits 32 (number_or (pos 0) sidval))

unfoldable pub payload_ack : ℕ → Option Payload → ℤ × ℕ
payload_ack sid none = (negsuc 0, sid)
payload_ack sid (some p) = ack_of sid p.err p.sid

unfoldable pub getack : ℕ → Message → ℤ × ℕ
getack sid top = payload_ack sid top.payload

-- sub_json_getframe with `qualtest` 0 and `frame` NULL before: the session, the frame, the quality.
pub record Rx : Type 0 where
  pub session : ℤ
  pub frame : Option (Option (List ℕ))
  pub qual : ℤ

unfoldable pub rx_of : Option ℤ → Payload → Rx
rx_of none p = record { session = negsuc 0; frame = none; qual = pos 0 }
rx_of (some sid) p = record { session = sid; frame = p.frame; qual = number_or (pos 0) p.qual }

unfoldable pub payload_rx : Option Payload → Rx
payload_rx none = record { session = negsuc 0; frame = none; qual = pos 0 }
payload_rx (some p) = rx_of p.sid p

unfoldable pub getframe : Message → Rx
getframe top = payload_rx top.payload

-- `state`, `cmd_sid`, `global_timeout`, and the memory at `dst`.
pub record Wait : Type 0 where
  pub state : ℕ
  pub cmd_sid : ℕ
  pub timeout : ℤ
  pub dst : List ℕ

-- A jump to sub_devmgr_socket_TERM, or `rc` at the end of the message's handling.
pub data Verdict : Type 0 where
  term : ℤ → Verdict
  rest : ℤ → Wait → Verdict

-- The wait for an acknowledgement.
unfoldable pub on_ack : Message → Wait → Verdict
on_ack m w =
    if gettype m (codes "ack")
    then (let (err, sid) = getack w.cmd_sid m in
        if pos_part err + neg_part err == 0
        then (if sid == 0
            then term (pos 0)
            else rest (negsuc 0) (record w { state = 1; cmd_sid = sid }))
        else term (negsuc 255 -ℤ pos (pos_part err + neg_part err)))
    else rest (negsuc 0) w

-- `rc`, and the memcpy of `rc + 1` bytes of the frame and its terminator.
unfoldable pub copy_frame : ℕ → List ℕ → Wait → Verdict
copy_frame dstmax text w =
    let n = min (length text + 1) dstmax in
    rest (sub_ℕ n 1) (record w { dst = take n (text ++ 0 ∷ []) ++ drop n w.dst })

unfoldable pub on_frame : ℕ → Option (Option (List ℕ)) → Wait → Verdict
on_frame dstmax (some (some text)) w = copy_frame dstmax text w
on_frame dstmax (some none) w = rest (negsuc 3) w
on_frame dstmax none w = rest (negsuc 3) w

-- The wait for the packet of the session.
unfoldable pub on_rxstat : ℕ → Message → Wait → Verdict
on_rxstat dstmax m w =
    if gettype m (codes "rxstat")
    then (let rx = getframe m in
        let w2 = record w { state = 2 } in
        if w.cmd_sid == low_bits 32 rx.session
        then (if pos_part rx.qual + neg_part rx.qual == 0
            then on_frame dstmax rx.frame w2
            else rest (negsuc 3) w2)
        else rest (negsuc 0) w)
    else rest (negsuc 0) w

-- The switch on the state.
unfoldable pub on_message : ℕ → Message → ℕ → Wait → Verdict
on_message dstmax m zero w = on_ack m w
on_message dstmax m (suc zero) w = on_rxstat dstmax m w
on_message dstmax m (suc (suc k)) w = rest (negsuc 0) w

unfoldable pub on_received : ℕ → Received → Wait → Verdict
on_received dstmax nothing w = rest (negsuc 3) w
on_received dstmax not_json w = rest (negsuc 0) w
on_received dstmax (message m) w = on_message dstmax m w.state w

-- The loop left with a return value and the memory, or another round.
pub data Turn : Type 0 where
  finished : ℤ → List ℕ → Turn
  again : Wait → Turn

-- sub_devmgr_socket_SENDCMD, and the reset before the loop.
unfoldable pub sendcmd : Bool → Wait → Turn
sendcmd true w = again (record w { state = 0; cmd_sid = 2 ^ 32 - 1 })
sendcmd false w = finished (negsuc 5) w.dst

-- What follows the handling: an escape, the timeout, or the retry.
unfoldable pub retract : Option ℕ → Bool → ℤ → Wait → Turn
retract none sent rc w = finished (negsuc 4) w.dst
retract (some ms) sent rc w =
    let w2 = record w { timeout = w.timeout -ℤ pos ms } in
    if ltb_ℤ (pos 0) w2.timeout
    then (if pos_part rc == 0 && neg_part rc == 4 then sendcmd sent w2 else again w2)
    else finished rc w.dst

unfoldable pub conclude : Event → List ℕ → Verdict → Turn
conclude e dst (term rc) = finished rc dst
conclude e dst (rest rc w) =
    if ltb_ℤ rc (pos 0) then retract e.elapsed e.sent rc w else finished rc w.dst

-- One round of the loop.
unfoldable pub step : ℕ → Event → Wait → Turn
step dstmax e w = conclude e w.dst (on_received dstmax e.received w)

unfoldable pub and_then : Turn → (Wait → Turn) → Turn
and_then (finished rc dst) k = finished rc dst
and_then (again w) k = k w

-- The rounds that these events give.
unfoldable pub rounds : ℕ → List Event → Wait → Turn
rounds dstmax [] w = again w
rounds dstmax (e ∷ es) w = let rest_of = rounds dstmax es in and_then (step dstmax e w) rest_of

-- sub_devmgr_socket; the flags say whether sp_reader_create, clock_gettime and the first sp_sendcmd
-- succeed.
unfoldable pub devmgr_socket : Bool → Bool → Bool → ℕ → List Event → List ℕ → Turn
devmgr_socket reader clock sent dstmax es dst =
    if reader
    then (if clock
        then and_then
            (sendcmd sent (record { state = 0; cmd_sid = 0; timeout = pos 3000; dst = dst }))
            (rounds dstmax es)
        else finished (negsuc 4) dst)
    else finished (negsuc 2) dst
