-- ===== src/SockPush/Invariant/ReaderSteps.antt =====
-- The steps of sp_read and of the calls that lock user_mutex in main/sockpush.c keep the two threads consistent.
use mathlib.Core.Path.{subst}
use otdb.Base.{
  ℕ, suc, ◌<◌, ◌≡◌, ◌≢◌, ◌∙◌, sym, refl, ap, ◌∷◌, Bool, true, false, inl, inr, length, take,
}
use otdb.SockPush.System.{
  Io, reading, filling, filled, offered, awaiting, Reader, idle, looking, missed, waiting, woken,
  timed_out, signalling, locking, State, loadread, stop_waiting, ReaderStep, look, busy, look_new,
  look_old, wait, wake, time_out, load, give_up, signal, call_lock, purge, pass_lock,
}
use otdb.SockPush.Invariant.{
  IsDelivery, delivered, newest, Unread, Offers, Buffer, Waits, Stands, IsConsistent, accounted,
  same-Unread, same_tally, buffer_at,
}

-- The places where the reader reads nothing: only what is waited for changes.
same_buffer :
    (s t : State) (i : Io)
    → t.received ≡ s.received
    → t.returned ≡ s.returned
    → t.last_read ≡ s.last_read
    → t.read_id ≡ s.read_id
    → t.buf ≡ s.buf
    → Buffer i s
    → Buffer i t
same_buffer s t reading a b l r e p = e ∙ (p ∙ ap newest (sym a))
same_buffer s t (filling line) a b l r e p = ((p.0.0, a ∙ p.0.1), same-Unread s t a b l r p.1)
same_buffer s t filled a b l r e p = (e ∙ (p.0 ∙ ap newest (sym a)), same-Unread s t a b l r p.1)
same_buffer s t offered a b l r e p = e ∙ (p ∙ ap newest (sym a))
same_buffer s t awaiting a b l r e p = e ∙ (p ∙ ap newest (sym a))

module _ (s t : State) (c : IsConsistent s) where
  -- A step that reads nothing, by the place where it leaves the reader.
  moved :
      t.io ≡ s.io
      → t.received ≡ s.received
      → t.returned ≡ s.returned
      → t.last_read ≡ s.last_read
      → t.read_id ≡ s.read_id
      → t.buf ≡ s.buf
      → Stands t.reader t
      → IsConsistent t
  moved i a b l r e st = record {
    ids = r ∙ (c.ids ∙ ap (λ lines. suc (length lines)) (sym a));
    tally = same_tally s t a b l r c;
    buffer = subst (λ x. Buffer x t) (sym i) (same_buffer s t s.io a b l r e c.buffer);
    stands = st;
  }

pub place-Stands : (s : State) (r : Reader) → s.reader ≡ r → IsConsistent s → Stands r s
place-Stands s r e c = subst (λ x. Stands x s) e c.stands

pub Waits-one : (s : State) (b : Bool) → Waits b s → s.waiting_readers ≡ 1
Waits-one s true w = w
Waits-one s false w = w.0

-- The only reader stops waiting.
stopped : (s : State) → s.waiting_readers ≡ 1 → Stands (stop_waiting s).reader (stop_waiting s)
unfolding stop_waiting
stopped s w = rw w refl

-- The text in the buffer is the last line, while it is offered.
pub offered_buffer :
    (s : State) (i : Io) (b : Bool) → Offers i b → Buffer i s → s.buf ≡ newest s.received
offered_buffer s offered b o p = p
offered_buffer s awaiting b o p = p
offered_buffer s reading b o p = absurd o
offered_buffer s (filling line) b o p = absurd o
offered_buffer s filled b o p = absurd o

loaded :
    (s : State) (readmax : ℕ)
    → 0 < readmax
    → s.read_id ≡ suc (length s.received)
    → s.buf ≡ newest s.received
    → Unread s
    → IsDelivery s.received ((s.read_id, take readmax s.buf) ∷ s.returned)
loaded s readmax h ids b u =
    rw (b, u.last)
      (delivered u.line s.read_id readmax (ids ∙ ap (λ l. suc (length l)) u.last) h u.given)

older-Unread : (s : State) → s.last_read ≢ s.read_id → IsConsistent s → Unread s
older-Unread s h c = elim c.tally [ inl (e, d) ↦ absurd (h e) | inr u ↦ u ]

plain_buffer :
    (s t : State) (i : Io) (b : Bool)
    → Offers i b
    → t.buf ≡ s.buf
    → t.received ≡ s.received
    → Buffer i s
    → Buffer i t
plain_buffer s t offered b o e a p = e ∙ (p ∙ ap newest (sym a))
plain_buffer s t awaiting b o e a p = e ∙ (p ∙ ap newest (sym a))
plain_buffer s t reading b o e a p = absurd o
plain_buffer s t (filling line) b o e a p = absurd o
plain_buffer s t filled b o e a p = absurd o

pub ReaderStep-IsConsistent : {s t : State} → ReaderStep s t → IsConsistent s → IsConsistent t
unfolding loadread stop_waiting
ReaderStep-IsConsistent (look s at free) c =
    moved s _ c refl refl refl refl refl refl (place-Stands s idle at c, free)
ReaderStep-IsConsistent (busy s at) c =
    moved s _ c refl refl refl refl refl refl (place-Stands s idle at c)
ReaderStep-IsConsistent (look_new s readmax at new h) c =
    let (w, free) = place-Stands s looking at c in
    let b = buffer_at s reading free c in
    record {
      ids = c.ids;
      tally = inl (refl, loaded s readmax h c.ids b (older-Unread s new c));
      buffer = subst (λ x. Buffer x (record (loadread readmax s) { reader = idle })) (sym free) b;
      stands = w;
    }
ReaderStep-IsConsistent (look_old s at old) c =
    moved s _ c refl refl refl refl refl refl (place-Stands s looking at c).0
ReaderStep-IsConsistent (wait s at) c =
    moved s _ c refl refl refl refl refl refl (ap suc (place-Stands s missed at c))
ReaderStep-IsConsistent (wake s at told) c =
    let p = subst (λ b. Waits b s) told (place-Stands s waiting at c) in
    moved s _ c refl refl refl refl refl refl (p.0, p.1, same-Unread s _ refl refl refl refl p.2)
ReaderStep-IsConsistent (time_out s at) c =
    moved s _ c refl refl refl refl refl refl
      (Waits-one s s.readline_inactive (place-Stands s waiting at c))
ReaderStep-IsConsistent (load s readmax at h) c =
    let (w, o, u) = place-Stands s woken at c in
    let b = offered_buffer s s.io s.readdone_inactive o c.buffer in
    record {
      ids = c.ids;
      tally = inl (refl, loaded s readmax h c.ids b u);
      buffer = plain_buffer s _ s.io s.readdone_inactive o refl refl c.buffer;
      stands = stopped (loadread readmax s) w;
    }
ReaderStep-IsConsistent (give_up s at) c =
    moved s _ c refl refl refl refl refl refl (stopped s (place-Stands s timed_out at c))
ReaderStep-IsConsistent (signal s at) c =
    moved s _ c refl refl refl refl refl refl (place-Stands s signalling at c)
ReaderStep-IsConsistent (call_lock s at) c =
    moved s _ c refl refl refl refl refl refl (place-Stands s idle at c)
ReaderStep-IsConsistent (purge s at free) c = record {
  ids = c.ids;
  tally = inl (refl, accounted s c);
  buffer =
      subst (λ x. Buffer x (record s { reader = idle; last_read = s.read_id })) (sym free)
        (buffer_at s reading free c);
  stands = place-Stands s locking at c;
}
ReaderStep-IsConsistent (pass_lock s at free) c =
    moved s _ c refl refl refl refl refl refl (place-Stands s locking at c)
