-- ===== src/SockPush/Invariant.antt =====
-- What holds of sp_iothread and its reader in main/sockpush.c after every step.
pub mod IoSteps
pub mod ReaderSteps
use mathlib.Core.Path.{subst}
use otdb.Base.{
  ℕ, suc, ◌+◌, ◌-◌, ◌<◌, ◌≤◌, ◌≡◌, ◌≢◌, ◌∙◌, sym, refl, ap, List, [], ◌∷◌, ◌++◌, Bool, true, false,
  ◌⊎◌, inl, inr, length, take, arith,
}
use otdb.SockPush.System.{
  Io, reading, filling, filled, offered, awaiting, Reader, idle, looking, missed, waiting, woken,
  timed_out, signalling, locking, State, start, loadread, stop_waiting, IoStep, take_line,
  store_line, nobody_waits, offer, await, resume, ReaderStep, look, busy, look_new, look_old, wait,
  wake, time_out, load, give_up, signal, call_lock, purge, pass_lock, Step, by_io, by_reader, Run,
  here, next,
}

-- What sp_read gave is made of the lines that came in, each at most once and in their order, with the
-- line's number, and cut to `readmax` bytes.
pub data IsDelivery : List (List ℕ) → List (ℕ × List ℕ) → Type 0 where
  nothing : IsDelivery [] []
  skipped :
      {lines : List (List ℕ)} {given : List (ℕ × List ℕ)} (line : List ℕ)
      → IsDelivery lines given
      → IsDelivery (line ∷ lines) given
  delivered :
      {lines : List (List ℕ)} {given : List (ℕ × List ℕ)} (line : List ℕ) (id readmax : ℕ)
      → id ≡ suc (suc (length lines))
      → 0 < readmax
      → IsDelivery lines given
      → IsDelivery (line ∷ lines) ((id, take readmax (line ++ 0 ∷ [])) ∷ given)

-- The text in read_buf after the last line.
abbrev pub newest : List (List ℕ) → List ℕ
newest [] = []
newest (line ∷ lines) = line ++ 0 ∷ []

-- The last line has not been read.
pub record Unread (s : State) : Type 0 where
  pub line : List ℕ
  pub lines : List (List ℕ)
  pub last : s.received ≡ line ∷ lines
  pub given : IsDelivery lines s.returned
  pub older : s.last_read < s.read_id

-- sp_iothread has offered the line and is not done with it.
abbrev pub Offers : Io → Bool → Type 0
Offers reading done = ⊥
Offers (filling line) done = ⊥
Offers filled done = ⊥
Offers offered done = Unit
Offers awaiting done = done ≡ true

abbrev pub Buffer : Io → State → Type 0
Buffer reading s = s.buf ≡ newest s.received
Buffer (filling line) s = ((lines : List (List ℕ)) × (s.received ≡ line ∷ lines)) × Unread s
Buffer filled s = (s.buf ≡ newest s.received) × Unread s
Buffer offered s = s.buf ≡ newest s.received
Buffer awaiting s = s.buf ≡ newest s.received

abbrev pub Waits : Bool → State → Type 0
Waits true s = s.waiting_readers ≡ 1
Waits false s = (s.waiting_readers ≡ 1) × Offers s.io s.readdone_inactive × Unread s

abbrev pub Stands : Reader → State → Type 0
Stands idle s = s.waiting_readers ≡ 0
Stands looking s = (s.waiting_readers ≡ 0) × (s.io ≡ reading)
Stands missed s = s.waiting_readers ≡ 0
Stands waiting s = Waits s.readline_inactive s
Stands woken s = (s.waiting_readers ≡ 1) × Offers s.io s.readdone_inactive × Unread s
Stands timed_out s = s.waiting_readers ≡ 1
Stands signalling s = s.waiting_readers ≡ 0
Stands locking s = s.waiting_readers ≡ 0

pub record IsConsistent (s : State) : Type 0 where
  pub ids : s.read_id ≡ suc (length s.received)
  pub tally : ((s.last_read ≡ s.read_id) × IsDelivery s.received s.returned) ⊎ Unread s
  pub buffer : Buffer s.io s
  pub stands : Stands s.reader s

pub start-IsConsistent : IsConsistent start
start-IsConsistent = record {
  ids = refl;
  tally = inl (refl, nothing);
  buffer = refl;
  stands = refl;
}

-- All lines up to the last are accounted for, read or not.
pub accounted : (s : State) → IsConsistent s → IsDelivery s.received s.returned
accounted s c = elim c.tally [ inl (e, d) ↦ d | inr u ↦ rw u.last (skipped u.line u.given) ]

pub not_ahead : (s : State) → IsConsistent s → s.last_read ≤ s.read_id
not_ahead s c = elim c.tally [ inl (e, d) ↦ omega arith | inr u ↦ omega arith ]

pub same-Unread :
    (s t : State)
    → t.received ≡ s.received
    → t.returned ≡ s.returned
    → t.last_read ≡ s.last_read
    → t.read_id ≡ s.read_id
    → Unread s
    → Unread t
same-Unread s t a b l r u = record {
  line = u.line;
  lines = u.lines;
  last = a ∙ u.last;
  given = rw b u.given;
  older = omega arith;
}

-- Steps that change neither lines nor ids.
pub same_tally :
    (s t : State)
    → t.received ≡ s.received
    → t.returned ≡ s.returned
    → t.last_read ≡ s.last_read
    → t.read_id ≡ s.read_id
    → IsConsistent s
    → ((t.last_read ≡ t.read_id) × IsDelivery t.received t.returned) ⊎ Unread t
same_tally s t a b l r c = elim c.tally [
  | inl (e, d) ↦ inl (omega arith, rw (a, b) d)
  | inr u ↦ inr (same-Unread s t a b l r u)
]

pub buffer_at : (s : State) (i : Io) → s.io ≡ i → IsConsistent s → Buffer i s
buffer_at s i e c = subst (λ x. Buffer x s) e c.buffer
