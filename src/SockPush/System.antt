-- ===== src/SockPush/System.antt =====
-- sp_iothread and one reader, which calls sp_read and the functions that lock user_mutex (sp_write,
-- sp_sendcmd, sp_reader_create, sp_reader_destroy and sp_reader_purge), as in main/sockpush.c where
-- SP_MAX_READERS is 1: what the two threads share, and the steps of each. A section under a mutex is
-- one step where the other thread does nothing that it reads or writes.
use otdb.Base.{
  ℕ, suc, ◌-◌, ◌<◌, ◌≡◌, ◌≢◌, List, [], ◌∷◌, ◌++◌, Bool, true, false, length, take, ◌==◌,
  if◌then◌else◌,
}
use otdb.SockPush.{buffer_size, read_line}

-- Where sp_iothread stands. From `filling` on it holds user_mutex.
pub data Io : Type 0 where
  reading : Io
  filling : List ℕ → Io
  filled offered awaiting : Io

-- Where the reader stands. It holds user_mutex in `looking`, and readline_mutex in `woken` and
-- `timed_out`. In `locking` it is in a call that has yet to lock user_mutex, and waits for it.
pub data Reader : Type 0 where
  idle looking missed waiting woken timed_out signalling locking : Reader

-- The shared fields of sp_item_t, and `last_read` of the reader. `buf` is the first read_size bytes
-- of read_buf. `received` and `returned` are no fields: the lines that came in and the lines that
-- sp_read gave, each with its read_id, the newest first. `read_id` is an unsigned int, here without
-- its wrap after 2^32 lines.
pub record State : Type 0 where
  pub io : Io
  pub reader : Reader
  pub buf : List ℕ
  pub read_id : ℕ
  pub last_read : ℕ
  pub waiting_readers : ℕ
  pub readline_inactive : Bool
  pub readdone_inactive : Bool
  pub received : List (List ℕ)
  pub returned : List (ℕ × List ℕ)

-- After sp_iothread has set up its variables and the reader has been purged.
abbrev pub start : State
start = record {
  io = reading;
  reader = idle;
  buf = [];
  read_id = 1;
  last_read = 1;
  waiting_readers = 0;
  readline_inactive = true;
  readdone_inactive = false;
  received = [];
  returned = [];
}

-- sub_loadread
unfoldable pub loadread : ℕ → State → State
loadread readmax s = record s {
  last_read = s.read_id;
  returned = (s.read_id, take readmax s.buf) ∷ s.returned;
}

-- `waiting_readers -= (waiting_readers != 0)`, and where sp_read goes on.
unfoldable pub stop_waiting : State → State
stop_waiting s =
    let n = s.waiting_readers - (if s.waiting_readers == 0 then 0 else 1) in
    record s { waiting_readers = n; reader = if n == 0 then signalling else idle }

-- The line in readbuf, without its terminator, where read_line has stopped.
unfoldable pub line_of : List ℕ × ℕ → List ℕ
line_of (readbuf, cursor) = take (cursor - 1) readbuf

-- The steps of sp_iothread: it reads a line, sets the id and the size and copies the line, during
-- which read_buf holds anything; then it looks for a waiting reader.
pub data IoStep : State → State → Type 0 where
  take_line :
      (s : State) (readbuf input torn : List ℕ)
      → length readbuf ≡ buffer_size
      → (read_line readbuf 0 input).0 ≡ true
      → s.io ≡ reading
      → s.reader ≢ looking
      → IoStep s (record s {
        io = filling (line_of (read_line readbuf 0 input).1);
        read_id = suc s.read_id;
        buf = torn;
        received = line_of (read_line readbuf 0 input).1 ∷ s.received;
      })
  store_line :
      (s : State) (line : List ℕ)
      → s.io ≡ filling line
      → IoStep s (record s { io = filled; buf = line ++ 0 ∷ [] })
  nobody_waits :
      (s : State)
      → s.io ≡ filled
      → s.reader ≢ woken
      → s.reader ≢ timed_out
      → s.waiting_readers ≡ 0
      → IoStep s (record s { io = reading })
  offer :
      (s : State)
      → s.io ≡ filled
      → s.reader ≢ woken
      → s.reader ≢ timed_out
      → 0 < s.waiting_readers
      → IoStep s (record s { io = offered; readline_inactive = false })
  await :
      (s : State) → s.io ≡ offered → IoStep s (record s { io = awaiting; readdone_inactive = true })
  resume :
      (s : State)
      → s.io ≡ awaiting
      → s.readdone_inactive ≡ false
      → IoStep s (record s { io = reading })

-- The steps of sp_read, from its call to its return, and of the calls that wait for user_mutex. sp_read
-- tries the lock, with success only where sp_iothread does not hold it; a writer may hold it as
-- well. The others get it only where sp_iothread does not hold it, and with it change nothing
-- here, but that sp_reader_create and sp_reader_purge set `last_read`. A line that is
-- loaded has a byte at least, its terminator, so that sp_read returns it.
pub data ReaderStep : State → State → Type 0 where
  look :
      (s : State) → s.reader ≡ idle → s.io ≡ reading → ReaderStep s (record s { reader = looking })
  busy : (s : State) → s.reader ≡ idle → ReaderStep s (record s { reader = missed })
  look_new :
      (s : State) (readmax : ℕ)
      → s.reader ≡ looking
      → s.last_read ≢ s.read_id
      → 0 < readmax
      → ReaderStep s (record (loadread readmax s) { reader = idle })
  look_old :
      (s : State)
      → s.reader ≡ looking
      → s.last_read ≡ s.read_id
      → ReaderStep s (record s { reader = missed })
  wait :
      (s : State)
      → s.reader ≡ missed
      → ReaderStep s (record s {
        reader = waiting;
        waiting_readers = suc s.waiting_readers;
        readline_inactive = true;
      })
  wake :
      (s : State)
      → s.reader ≡ waiting
      → s.readline_inactive ≡ false
      → ReaderStep s (record s { reader = woken })
  time_out : (s : State) → s.reader ≡ waiting → ReaderStep s (record s { reader = timed_out })
  load :
      (s : State) (readmax : ℕ)
      → s.reader ≡ woken
      → 0 < readmax
      → ReaderStep s (stop_waiting (loadread readmax s))
  give_up : (s : State) → s.reader ≡ timed_out → ReaderStep s (stop_waiting s)
  signal :
      (s : State)
      → s.reader ≡ signalling
      → ReaderStep s (record s { reader = idle; readdone_inactive = false })
  call_lock : (s : State) → s.reader ≡ idle → ReaderStep s (record s { reader = locking })
  purge :
      (s : State)
      → s.reader ≡ locking
      → s.io ≡ reading
      → ReaderStep s (record s { reader = idle; last_read = s.read_id })
  pass_lock :
      (s : State) → s.reader ≡ locking → s.io ≡ reading → ReaderStep s (record s { reader = idle })

pub data Step : State → State → Type 0 where
  by_io : {s t : State} → IoStep s t → Step s t
  by_reader : {s t : State} → ReaderStep s t → Step s t

-- The steps that lead from a state to another.
pub data Run (s : State) : State → Type 0 where
  here : Run s s
  next : {t u : State} → Run s t → Step t u → Run s u
