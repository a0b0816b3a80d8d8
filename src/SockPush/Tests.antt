-- ===== src/SockPush/Tests.antt =====
-- The socket reader of main/sockpush.c at concrete calls, lines and orders of steps.
use otdb.Base.{
  ◌+◌, ◌*◌, ◌≡◌, ◌↔◌, refl, [], ◌∷◌, ◌++◌, true, false, length, drop, replicate, ◌/◌, inr, arith,
}
use otdb.Base.Int.{pos}
use otdb.Text.{codes}
use otdb.SockPush.{
  Outcomes, sp_open, sp_sendcmd, sub_write, buffer_size, read_line, Timespec, deadline,
}
use otdb.SockPush.Setup.{IsSettled, sp_open-IsSettled}
use otdb.SockPush.Lines.{IsStored, read_line-IsStored}
use otdb.SockPush.System.{
  reading, offered, woken, signalling, locking, State, start, loadread, stop_waiting, Step, IoStep,
  line_of, take_line, store_line, offer, busy, wait, wake, load, by_io, by_reader, Run, here, next,
}
use otdb.SockPush.Invariant.{IsDelivery, newest, Offers}
use otdb.SockPush.Once.{Run-IsDelivery, Run-whole_line}
use otdb.SockPush.Waits.{IsStuck, Locked, signal-IsStuck, signal-Locked}
use otdb.SockPush.Freed.{Run-freed_iff}

-- readline_cond cannot be set up.
abbrev no_line_cond : Outcomes
no_line_cond = record {
  allocated = true;
  is_socket = true;
  opened = true;
  user = true;
  line_mutex = true;
  line_cond = false;
  done_mutex = true;
  done_cond = true;
  started = true;
}

sp_open-IsSettled_example : IsSettled (sp_open true true no_line_cond)
sp_open-IsSettled_example = sp_open-IsSettled true true no_line_cond

-- A command without a newline gets one, and the result is that of the second write.
sp_sendcmd_runs :
    sp_sendcmd (λ text. pos (length text)) true (codes "ls") ≡ (codes "ls" ∷ (10 ∷ []) ∷ [], pos 1)
unfolding sp_sendcmd sub_write
sp_sendcmd_runs = refl

read_line-IsStored_example :
    IsStored
      (drop (length (codes "ok") / buffer_size * buffer_size) (codes "ok"))
      (read_line (replicate buffer_size 0) 0 (codes "ok" ++ 10 ∷ codes "next"))
read_line-IsStored_example =
    read_line-IsStored (codes "ok") (replicate buffer_size 0) 10 (codes "next") (refl, (refl, tt))
      refl refl

-- 250 ms from 0.75 s on: the parts add up to a second, which is not carried.
abbrev now : Timespec
now = record { tv_sec = 7; tv_nsec = 750000000 }

deadline_runs : deadline 250 now ≡ record { tv_sec = 7; tv_nsec = 1000000000 }
unfolding deadline
deadline_runs = refl

-- The reader waits, a line comes, the reader is woken.
abbrev at_wake : State
at_wake = record {
  io = offered;
  reader = woken;
  buf = codes "a" ++ 0 ∷ [];
  read_id = 2;
  last_read = 1;
  waiting_readers = 1;
  readline_inactive = false;
  readdone_inactive = false;
  received = codes "a" ∷ [];
  returned = [];
}

to_wake : Run start at_wake
unfolding read_line line_of
to_wake =
    next
      (next
        (next
          (next (next (next here (by_reader (busy start refl))) (by_reader (wait _ refl))) (
            by_io (
              take_line _ (replicate buffer_size 0) (codes "a" ++ 10 ∷ []) [] refl refl refl
                (ground arith))))
          (by_io (store_line _ (codes "a") refl)))
        (by_io (offer _ refl (ground arith) (ground arith) (omega arith))))
      (by_reader (wake _ refl refl))

-- It copies the line.
abbrev at_signal : State
at_signal = record at_wake {
  reader = signalling;
  last_read = 2;
  waiting_readers = 0;
  returned = (2, codes "a" ++ 0 ∷ []) ∷ [];
}

to_signal : Run start at_signal
unfolding loadread stop_waiting
to_signal = next to_wake (by_reader (load at_wake 10 refl (omega arith)))

Run-whole_line_example : (at_wake.buf ≡ newest at_wake.received) × (2 ≡ 1 + 1)
Run-whole_line_example = Run-whole_line at_wake to_wake (inr refl)

Run-IsDelivery_example : IsDelivery (codes "a" ∷ []) ((2, codes "a" ++ 0 ∷ []) ∷ [])
Run-IsDelivery_example = Run-IsDelivery at_signal to_signal

signal-IsStuck_example : (t : State) × Run start t × IsStuck t × ((u : State) → ¬ IoStep t u)
signal-IsStuck_example = signal-IsStuck at_signal to_signal refl refl

signal-Locked_example : (t : State) × Run start t × Locked t × ((u : State) → ¬ Step t u)
signal-Locked_example = signal-Locked at_signal to_signal refl refl

Run-freed_iff_example :
    ((t : State) × Run at_signal t × (t.io ≡ reading))
    ↔ ¬ ((signalling ≡ locking) × Offers offered false)
Run-freed_iff_example = Run-freed_iff at_signal to_signal
