-- ===== src/SockPush/Waits.antt =====
-- Where the two threads of main/sockpush.c wait for each other for good.
use mathlib.Core.Path.{subst}
use otdb.Base.{◌≡◌, refl, sym, true, false, arith}
use otdb.SockPush.System.{
  Io, reading, filling, filled, offered, awaiting, idle, signalling, locking, State, start, IoStep,
  take_line, store_line, nobody_waits, offer, await, resume, ReaderStep, look, busy, look_new,
  look_old, wait, wake, time_out, load, give_up, signal, call_lock, purge, pass_lock, Step, by_io,
  by_reader, Run, here, next,
}
use otdb.SockPush.Invariant.{Offers}

-- sp_iothread waits on readdone_cond with user_mutex held, and the reader is in no call of sp_read.
pub record IsStuck (s : State) : Type 0 where
  pub waits : s.io ≡ awaiting
  pub unsignalled : s.readdone_inactive ≡ true
  pub away : s.reader ≡ idle

stopped_io : {t u : State} → IoStep t u → t.io ≡ awaiting → t.readdone_inactive ≡ true → ⊥
stopped_io (take_line t readbuf input torn _ _ at free) e on = ground arith
stopped_io (store_line t line at) e on = ground arith
stopped_io (nobody_waits t at a b z) e on = ground arith
stopped_io (offer t at a b n) e on = ground arith
stopped_io (await t at) e on = ground arith
stopped_io (resume t at off) e on = ground arith

-- While it waits with nothing signalled, sp_iothread has no step.
no_step : (t : State) → t.io ≡ awaiting → t.readdone_inactive ≡ true → (u : State) → ¬ IoStep t u
no_step t at on u st = stopped_io st at on

-- A signal that comes before the wait is lost: from wherever the two threads have come to a state where
-- sp_iothread has offered a line and the reader is about to signal that it has it, they can come to
-- a state where sp_iothread waits for that signal while the reader is in no call, and where no step
-- of sp_iothread leads on.
pub signal-IsStuck :
    (s : State)
    → Run start s
    → s.io ≡ offered
    → s.reader ≡ signalling
    → (t : State) × Run start t × IsStuck t × ((u : State) → ¬ IoStep t u)
signal-IsStuck s r at sig =
    let s1 = record s { reader = idle; readdone_inactive = false } in
    let t = record s1 { io = awaiting; readdone_inactive = true } in
    (
      t,
      next (next r (by_reader (signal s sig))) (by_io (await s1 at)),
      record { waits = refl; unsignalled = refl; away = refl },
      no_step t refl refl,
    )

-- The reader waits for user_mutex, which sp_iothread holds until the reader signals: sp_iothread has
-- offered the line, and `readdone_inactive` is set where it waits already.
abbrev pub Locked : State → Type 0
Locked s = (s.reader ≡ locking) × Offers s.io s.readdone_inactive

pub place-Offers :
    (s : State) (i : Io) → s.io ≡ i → Offers s.io s.readdone_inactive → Offers i s.readdone_inactive
place-Offers s i e o = subst (λ x. Offers x s.readdone_inactive) e o

IoStep-Locked : {s t : State} → IoStep s t → Locked s → Locked t
IoStep-Locked (take_line s readbuf input torn _ _ at free) l =
    absurd (place-Offers s reading at l.1)
IoStep-Locked (store_line s line at) l = absurd (place-Offers s (filling line) at l.1)
IoStep-Locked (nobody_waits s at a b z) l = absurd (place-Offers s filled at l.1)
IoStep-Locked (offer s at a b n) l = absurd (place-Offers s filled at l.1)
IoStep-Locked (await s at) l = (l.0, refl)
IoStep-Locked (resume s at off) l =
    let on : s.readdone_inactive ≡ true = place-Offers s awaiting at l.1 in absurd (ground arith)

-- The reader that waits for the lock has no step while sp_iothread holds it.
blocked : {s t : State} → ReaderStep s t → Locked s → ⊥
blocked (look s at free) l = ground (arith, l.0)
blocked (busy s at) l = ground (arith, l.0)
blocked (look_new s readmax at new h) l = ground (arith, l.0)
blocked (look_old s at old) l = ground (arith, l.0)
blocked (wait s at) l = ground (arith, l.0)
blocked (wake s at told) l = ground (arith, l.0)
blocked (time_out s at) l = ground (arith, l.0)
blocked (load s readmax at h) l = ground (arith, l.0)
blocked (give_up s at) l = ground (arith, l.0)
blocked (signal s at) l = ground (arith, l.0)
blocked (call_lock s at) l = ground (arith, l.0)
blocked (purge s at free) l = place-Offers s reading free l.1
blocked (pass_lock s at free) l = place-Offers s reading free l.1

pub Run-Locked : {s t : State} → Run s t → Locked s → Locked t
Run-Locked here l = l
Run-Locked (next r (by_io st)) l = IoStep-Locked st (Run-Locked r l)
Run-Locked (next r (by_reader st)) l = absurd (blocked st (Run-Locked r l))

dead : (s : State) → Locked s → s.io ≡ awaiting → (u : State) → ¬ Step s u
dead s l at u (by_io st) = stopped_io st at (place-Offers s awaiting at l.1)
dead s l at u (by_reader st) = blocked st l

-- From wherever the two threads have come to a state where sp_iothread has offered a line and the reader is
-- about to signal that it has it, they can come to a deadlock: sp_iothread waits for the signal
-- with user_mutex held, the reader waits for user_mutex, and neither has a step.
pub signal-Locked :
    (s : State)
    → Run start s
    → s.io ≡ offered
    → s.reader ≡ signalling
    → (t : State) × Run start t × Locked t × ((u : State) → ¬ Step t u)
signal-Locked s r at sig =
    let (t, to, stuck, _) = signal-IsStuck s r at sig in
    let u = record t { reader = locking } in
    let held : Offers t.io t.readdone_inactive =
      subst (λ x. Offers x t.readdone_inactive) (sym stuck.waits) stuck.unsignalled in
    (u, next to (by_reader (call_lock t stuck.away)), (refl, held), dead u (refl, held) stuck.waits)
