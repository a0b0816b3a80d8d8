-- ===== src/SockPush.antt =====
-- The socket reader main/sockpush.c: set-up, writes, the line buffer, and the deadline of a read. The
-- two threads that share an sp_item_t are in System.
pub mod Setup
pub mod Lines
pub mod System
pub mod Invariant
pub mod Once
pub mod Waits
pub mod Freed
mod Tests
use otdb.Base.{
  ℕ, zero, suc, ◌+◌, ◌-◌, ◌*◌, ◌/◌, ◌%◌, List, [], ◌∷◌, ◌++◌, Bool, true, false, ◌&&◌, ◌||◌, not,
  length, take, set, get_or, ltb, leb, ◌==◌, if◌then◌else◌,
}
use otdb.Base.Int.{ℤ, pos, negsuc, ltb_ℤ}

-- What sp_open acquires, in its order.
pub data Resource : Type 0 where
  memory socket user_mutex readline_mutex readline_cond readdone_mutex readdone_cond iothread :
      Resource

-- Which of the calls of sp_open succeed. `is_socket` is that stat works and finds a socket.
pub record Outcomes : Type 0 where
  pub allocated : Bool
  pub is_socket : Bool
  pub opened : Bool
  pub user : Bool
  pub line_mutex : Bool
  pub line_cond : Bool
  pub done_mutex : Bool
  pub done_cond : Bool
  pub started : Bool

-- The cleanup of sp_open_ERR for `-(n + 1)`: the cases from its own on, each falling through.
unfoldable pub cleanup : ℕ → List Resource
cleanup n =
    (if n == 10 then readdone_cond ∷ [] else [])
    ++ ((if leb 9 n && leb n 10 then readdone_mutex ∷ [] else [])
        ++ ((if leb 8 n && leb n 10 then readline_cond ∷ [] else [])
            ++ ((if leb 7 n && leb n 10 then readline_mutex ∷ [] else [])
                ++ ((if leb 5 n && leb n 10 then user_mutex ∷ [] else [])
                    ++ ((if leb 4 n && leb n 10 then socket ∷ [] else [])
                        ++ (if leb 2 n && leb n 10 then memory ∷ [] else []))))))

-- The result of sp_open, with what it acquired and what it released, each in order.
pub record Opening : Type 0 where
  pub rc : ℤ
  pub acquired : List Resource
  pub released : List Resource

unfoldable pub fails : ℕ → List Resource → Opening
fails n held = record { rc = negsuc n; acquired = held; released = cleanup n }

-- sp_open: `handle` and `path` are that the arguments are there.
unfoldable pub sp_open : Bool → Bool → Outcomes → Opening
sp_open handle path o =
    let held1 = memory ∷ [] in
    let held2 = memory ∷ socket ∷ [] in
    let held3 = memory ∷ socket ∷ user_mutex ∷ [] in
    let held4 = memory ∷ socket ∷ user_mutex ∷ readline_mutex ∷ [] in
    let held5 = memory ∷ socket ∷ user_mutex ∷ readline_mutex ∷ readline_cond ∷ [] in
    let held6 =
      memory ∷ socket ∷ user_mutex ∷ readline_mutex ∷ readline_cond ∷ readdone_mutex ∷ [] in
    let held7 =
      memory ∷ socket ∷ user_mutex ∷ readline_mutex ∷ readline_cond ∷ readdone_mutex ∷ readdone_cond
      ∷ [] in
    let held8 =
      memory ∷ socket ∷ user_mutex ∷ readline_mutex ∷ readline_cond ∷ readdone_mutex ∷ readdone_cond
      ∷ iothread ∷ [] in
    if not (handle && path)
    then record { rc = negsuc 0; acquired = []; released = [] }
    else if not o.allocated
    then record { rc = negsuc 1; acquired = []; released = [] }
    else if not o.is_socket
    then fails 2 held1
    else if not o.opened
    then fails 3 held1
    else if not o.user
    then fails 4 held2
    else if not o.line_mutex
    then fails 6 held3
    else if not o.line_cond
    then fails 7 held4
    else if not o.done_mutex
    then fails 8 held5
    else if not o.done_cond
    then fails 9 held6
    else if not o.started
    then fails 10 held7
    else record { rc = pos 0; acquired = held8; released = [] }

-- What sp_close releases, after it has cancelled and joined the thread.
unfoldable pub sp_close : Bool → Bool → ℤ × List Resource
sp_close handle cancelled =
    if not handle then (negsuc 0, []) else if not cancelled then (negsuc 1, []) else (
      pos 0,
      iothread ∷ readdone_cond ∷ readdone_mutex ∷ readline_cond ∷ readline_mutex ∷ user_mutex
          ∷ socket ∷ memory ∷ [],
    )

-- sub_write with no subscriber, since sp_subscribe adds none: the texts that it gives to write, and
-- its result. `write` is the call's return value for a text.
unfoldable pub sub_write : (List ℕ → ℤ) → List ℕ → Bool → List (List ℕ) × ℤ
sub_write write writebuf do_terminate =
    let rc = write writebuf in
    if ltb_ℤ rc (pos 0)
    then (writebuf ∷ [], negsuc 1)
    else if do_terminate
    then (writebuf ∷ (10 ∷ []) ∷ [], write (10 ∷ []))
    else (writebuf ∷ [], rc)

unfoldable pub sp_write : (List ℕ → ℤ) → Bool → List ℕ → List (List ℕ) × ℤ
sp_write write handle writebuf =
    if not handle
    then ([], negsuc 0)
    else if length writebuf == 0
    then ([], pos 0)
    else sub_write write writebuf false

unfoldable pub sp_sendcmd : (List ℕ → ℤ) → Bool → List ℕ → List (List ℕ) × ℤ
sp_sendcmd write handle writebuf =
    if not handle
    then ([], negsuc 0)
    else if length writebuf == 0
    then ([], pos 0)
    else sub_write write writebuf (not (get_or writebuf (length writebuf - 1) 0 == 10))

-- sp_subscribe
abbrev pub sp_subscribe : ℤ
sp_subscribe = negsuc 0

abbrev pub buffer_size : ℕ
buffer_size = 1024

-- The inner loop of sp_iothread: `cursor` is the offset in readbuf, and the list is what read gives,
-- byte by byte. Its end is a failing read. The result is readbuf with the cursor.
unfoldable pub read_line : List ℕ → ℕ → List ℕ → Bool × (List ℕ × ℕ)
read_line buf cursor [] = (false, (buf, cursor))
read_line buf cursor (c ∷ input) =
    let rest =
      read_line (set buf cursor c) (if leb buffer_size (cursor + 1) then 0 else cursor + 1) input in
    if c == 10 || c == 0 then (true, (set (set buf cursor c) cursor 0, cursor + 1)) else rest

-- A struct timespec.
pub record Timespec : Type 0 where
  pub tv_sec : ℕ
  pub tv_nsec : ℕ

-- The deadline of sp_read, from the time that clock_gettime gives.
unfoldable pub deadline : ℕ → Timespec → Timespec
deadline timeout_ms cur =
    let nsec = timeout_ms % 1000 * 1000000 + cur.tv_nsec in
    let sec = timeout_ms / 1000 + cur.tv_sec in
    if ltb 1000000000 nsec
    then record { tv_sec = sec + 1; tv_nsec = nsec - 1000000000 }
    else record { tv_sec = sec; tv_nsec = nsec }
