-- ===== src/SockPush/Once.antt =====
-- What sp_read of main/sockpush.c returns, whatever the order in which the two threads take their steps.
use otdb.Base.{suc, ◌≡◌, ◌⊎◌, inl, inr, length}
use otdb.SockPush.System.{looking, woken, State, start, Step, by_io, by_reader, Run, here, next}
use otdb.SockPush.Invariant.{
  IsDelivery, newest, IsConsistent, start-IsConsistent, accounted, buffer_at,
}
use otdb.SockPush.Invariant.IoSteps.{IoStep-IsConsistent}
use otdb.SockPush.Invariant.ReaderSteps.{ReaderStep-IsConsistent, place-Stands, offered_buffer}

Step-IsConsistent : {s t : State} → Step s t → IsConsistent s → IsConsistent t
Step-IsConsistent (by_io st) c = IoStep-IsConsistent st c
Step-IsConsistent (by_reader st) c = ReaderStep-IsConsistent st c

pub Run-IsConsistent : {s t : State} → Run s t → IsConsistent s → IsConsistent t
Run-IsConsistent here c = c
Run-IsConsistent (next r st) c = Step-IsConsistent st (Run-IsConsistent r c)

pub reached-IsConsistent : (s : State) → Run start s → IsConsistent s
reached-IsConsistent s r = Run-IsConsistent r start-IsConsistent

-- After any steps of the two threads: what the calls of sp_read returned are lines that came in over
-- the socket, each at most once, in their order, with the number that `read_id` gave the line, and
-- as many bytes of the line and its terminator as the call had room for.
pub Run-IsDelivery : (s : State) → Run start s → IsDelivery s.received s.returned
Run-IsDelivery s r = accounted s (reached-IsConsistent s r)

-- Wherever the reader is about to copy read_buf, be it under the lock or after it was woken, without
-- the lock, the buffer is not being written: it holds the newest line with its terminator, and
-- `read_id` is that line's number.
pub Run-whole_line :
    (s : State)
    → Run start s
    → (s.reader ≡ looking) ⊎ (s.reader ≡ woken)
    → (s.buf ≡ newest s.received) × (s.read_id ≡ suc (length s.received))
Run-whole_line s r (inl at) =
    let c = reached-IsConsistent s r in (buffer_at s _ (place-Stands s looking at c).1 c, c.ids)
Run-whole_line s r (inr at) =
    let c = reached-IsConsistent s r in
    (offered_buffer s s.io s.readdone_inactive (place-Stands s woken at c).1 c.buffer, c.ids)
