-- ===== src/SockPush/Freed.antt =====
-- Where sp_iothread of main/sockpush.c comes back to its socket.
use mathlib.Core.Path.{subst}
use otdb.Base.{
  suc, ◌≡◌, ◌≢◌, ◌↔◌, refl, sym, ◌∙◌, [], ◌∷◌, true, false, arith, ap, ◌++◌, inl, inr, Bool-cases,
}
use otdb.SockPush.System.{
  Io, reading, filling, filled, offered, awaiting, Reader, idle, looking, missed, waiting, woken,
  timed_out, signalling, locking, State, start, loadread, stop_waiting, store_line, nobody_waits,
  offer, await, resume, busy, wait, time_out, load, give_up, signal, Step, by_io, by_reader, Run,
  here, next,
}
use otdb.SockPush.Invariant.{Stands, Offers, IsConsistent}
use otdb.SockPush.Invariant.IoSteps.{IoStep-IsConsistent}
use otdb.SockPush.Invariant.ReaderSteps.{Waits-one}
use otdb.SockPush.Once.{reached-IsConsistent}
use otdb.SockPush.Waits.{Locked, place-Offers, Run-Locked}

prepend : {s t u : State} → Step s t → Run t u → Run s u
prepend st here = next here st
prepend st (next r last) = next (prepend st r) last

-- sp_iothread can come back to reading.
abbrev Freed : State → Type 0
Freed s = (t : State) × Run s t × (t.io ≡ reading)

Step-Freed : {s t : State} → Step s t → Freed t → Freed s
Step-Freed st (t, r, e) = (t, prepend st r, e)

-- Where sp_iothread waits, by the reader's place, from the nearest to the signal on.
signalling-Freed : (s : State) → s.io ≡ awaiting → s.reader ≡ signalling → Freed s
signalling-Freed s at sig =
    let t = record s { reader = idle; readdone_inactive = false } in
    Step-Freed (by_reader (signal s sig))
      (record t { io = reading }, next here (by_io (resume t at refl)), refl)

stops-signalling : (s : State) → s.waiting_readers ≡ 1 → (stop_waiting s).reader ≡ signalling
unfolding stop_waiting
stops-signalling s w = rw w refl

stops-count : (s : State) → s.waiting_readers ≡ 1 → (stop_waiting s).waiting_readers ≡ 0
unfolding stop_waiting
stops-count s w = rw w refl

stops-io : (s : State) → (stop_waiting s).io ≡ s.io
unfolding stop_waiting
stops-io s = refl

timed_out-Freed :
    (s : State) → s.io ≡ awaiting → s.reader ≡ timed_out → s.waiting_readers ≡ 1 → Freed s
timed_out-Freed s at late w =
    Step-Freed (by_reader (give_up s late))
      (signalling-Freed (stop_waiting s) (stops-io s ∙ at) (stops-signalling s w))

woken-Freed : (s : State) → s.io ≡ awaiting → s.reader ≡ woken → s.waiting_readers ≡ 1 → Freed s
unfolding loadread
woken-Freed s at woke w =
    let t = loadread 1 s in
    Step-Freed (by_reader (load s 1 woke (omega arith)))
      (signalling-Freed (stop_waiting t) (stops-io t ∙ at) (stops-signalling t w))

waiting-Freed : (s : State) → s.io ≡ awaiting → s.reader ≡ waiting → s.waiting_readers ≡ 1 → Freed s
waiting-Freed s at r w =
    Step-Freed (by_reader (time_out s r))
      (timed_out-Freed (record s { reader = timed_out }) at refl w)

missed-Freed : (s : State) → s.io ≡ awaiting → s.reader ≡ missed → s.waiting_readers ≡ 0 → Freed s
missed-Freed s at r w = Step-Freed (by_reader (wait s r)) (waiting-Freed _ at refl (ap suc w))

idle-Freed : (s : State) → s.io ≡ awaiting → s.reader ≡ idle → s.waiting_readers ≡ 0 → Freed s
idle-Freed s at r w =
    Step-Freed (by_reader (busy s r)) (missed-Freed (record s { reader = missed }) at refl w)

-- The signal is there already.
resumes : (s : State) → s.io ≡ awaiting → s.readdone_inactive ≡ false → Freed s
resumes s at off = (record s { io = reading }, next here (by_io (resume s at off)), refl)

awaiting-Freed :
    (s : State) (r : Reader)
    → s.io ≡ awaiting
    → s.reader ≡ r
    → (r ≡ locking → s.readdone_inactive ≡ false)
    → Stands r s
    → Freed s
awaiting-Freed s idle at e l p = idle-Freed s at e p
awaiting-Freed s looking at e l p = ground arith
awaiting-Freed s missed at e l p = missed-Freed s at e p
awaiting-Freed s waiting at e l p = waiting-Freed s at e (Waits-one s s.readline_inactive p)
awaiting-Freed s woken at e l p = woken-Freed s at e p.0
awaiting-Freed s timed_out at e l p = timed_out-Freed s at e p
awaiting-Freed s signalling at e l p = signalling-Freed s at e
awaiting-Freed s locking at e l p = resumes s at (l refl)

offered-Freed : (s : State) → s.io ≡ offered → s.reader ≢ locking → IsConsistent s → Freed s
offered-Freed s at l c =
    let t = record s { io = awaiting; readdone_inactive = true } in
    Step-Freed (by_io (await s at)) (
      awaiting-Freed t t.reader refl refl (λ e. absurd (l e))
        (IoStep-IsConsistent (await s at) c).stands)

unlocks :
    (s : State)
    → s.io ≡ filled
    → s.reader ≢ woken
    → s.reader ≢ timed_out
    → s.waiting_readers ≡ 0
    → Freed s
unlocks s at a b w = (record s { io = reading }, next here (by_io (nobody_waits s at a b w)), refl)

-- Where the line is stored, by the reader's place.
filled-Freed :
    (s : State) (r : Reader) → s.io ≡ filled → s.reader ≡ r → IsConsistent s → Stands r s → Freed s
filled-Freed s idle at e c p = unlocks s at (ground arith) (ground arith) p
filled-Freed s looking at e c p = ground arith
filled-Freed s missed at e c p = unlocks s at (ground arith) (ground arith) p
filled-Freed s waiting at e c p =
    let st =
      offer s at (ground arith) (ground arith) (omega (arith, Waits-one s s.readline_inactive p)) in
    Step-Freed (by_io st) (
      offered-Freed (record s { io = offered; readline_inactive = false }) refl (ground (arith, e))
        (IoStep-IsConsistent st c))
filled-Freed s woken at e c p = absurd (subst (λ i. Offers i s.readdone_inactive) at p.1)
filled-Freed s timed_out at e c p =
    let t = stop_waiting s in
    let left = stops-signalling s p in
    Step-Freed (by_reader (give_up s e))
      (unlocks t (stops-io s ∙ at) (ground (arith, left)) (ground (arith, left)) (stops-count s p))
filled-Freed s signalling at e c p = unlocks s at (ground arith) (ground arith) p
filled-Freed s locking at e c p = unlocks s at (ground arith) (ground arith) p

-- Where the signal is set while sp_iothread waits, the reader is no longer in a call that locks.
unset :
    (s : State) → s.io ≡ awaiting → ¬ Locked s → s.reader ≡ locking → s.readdone_inactive ≡ false
unset s at free e = elim (Bool-cases s.readdone_inactive) [
  | inl on ↦ absurd (free (e, subst (λ x. Offers x s.readdone_inactive) (sym at) on))
  | inr off ↦ off
]

consistent-Freed : (s : State) (i : Io) → s.io ≡ i → ¬ Locked s → IsConsistent s → Freed s
consistent-Freed s reading at free c = (s, here, at)
consistent-Freed s (filling line) at free c =
    let st = store_line s line at in
    let t = record s { io = filled; buf = line ++ 0 ∷ [] } in
    let d = IoStep-IsConsistent st c in
    Step-Freed (by_io st) (filled-Freed t t.reader refl refl d d.stands)
consistent-Freed s filled at free c = filled-Freed s s.reader at refl c c.stands
consistent-Freed s offered at free c =
    let l : s.reader ≢ locking =
      λ e. free (e, subst (λ x. Offers x s.readdone_inactive) (sym at) tt) in
    offered-Freed s at l c
consistent-Freed s awaiting at free c = awaiting-Freed s s.reader at refl (unset s at free) c.stands

-- From wherever the two threads have come, steps of theirs lead to where sp_iothread reads the socket
-- again with user_mutex released, except in one place, from which none do: the reader waits for
-- user_mutex in a call of sp_write, sp_sendcmd, sp_reader_create, sp_reader_destroy or
-- sp_reader_purge while sp_iothread has offered a line and is about to wait for the reader's
-- signal, or waits for it with the signal not given.
pub Run-freed_iff :
    (s : State)
    → Run start s
    → ((t : State) × Run s t × (t.io ≡ reading))
      ↔ ¬ ((s.reader ≡ locking) × Offers s.io s.readdone_inactive)
Run-freed_iff s r = (
  λ (t, run, e) l. place-Offers t reading e (Run-Locked run l).1,
  λ free. consistent-Freed s s.io refl free (reached-IsConsistent s r),
)
