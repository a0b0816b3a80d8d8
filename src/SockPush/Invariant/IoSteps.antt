-- ===== src/SockPush/Invariant/IoSteps.antt =====
-- The steps of sp_iothread in main/sockpush.c keep the two threads consistent.
use mathlib.Core.Path.{subst}
use otdb.Base.{suc, ◌<◌, ◌≡◌, ◌≢◌, ◌∙◌, sym, refl, ap, [], ◌∷◌, ◌++◌, Bool, true, false, inr, arith}
use otdb.SockPush.{read_line}
use otdb.SockPush.System.{
  Io, reading, filling, filled, offered, awaiting, Reader, idle, looking, missed, waiting, woken,
  timed_out, signalling, locking, State, line_of, IoStep, take_line, store_line, nobody_waits,
  offer, await, resume,
}
use otdb.SockPush.Invariant.{
  Unread, Offers, Waits, Stands, IsConsistent, accounted, not_ahead, same-Unread, same_tally,
  buffer_at,
}

-- The steps of sp_iothread that leave the reader's place true: nothing is offered before them.
same-Waits :
    (s t : State) (b : Bool)
    → ¬ Offers s.io s.readdone_inactive
    → t.waiting_readers ≡ s.waiting_readers
    → Waits b s
    → Waits b t
same-Waits s t true shut e w = e ∙ w
same-Waits s t false shut e w = absurd (shut w.1)

same-Stands :
    (s t : State) (r : Reader)
    → ¬ Offers s.io s.readdone_inactive
    → t.waiting_readers ≡ s.waiting_readers
    → t.readline_inactive ≡ s.readline_inactive
    → r ≢ looking
    → Stands r s
    → Stands r t
same-Stands s t idle shut e b h p = e ∙ p
same-Stands s t looking shut e b h p = absurd (h refl)
same-Stands s t missed shut e b h p = e ∙ p
same-Stands s t waiting shut e b h p =
    subst (λ x. Waits x t) (sym b) (same-Waits s t s.readline_inactive shut e p)
same-Stands s t woken shut e b h p = absurd (shut p.1)
same-Stands s t timed_out shut e b h p = e ∙ p
same-Stands s t signalling shut e b h p = e ∙ p
same-Stands s t locking shut e b h p = e ∙ p

-- The reader does not look while sp_iothread holds the lock.
not_looking : (s : State) (r : Reader) → Stands r s → s.io ≢ reading → r ≢ looking
not_looking s looking p h = absurd (h p.1)
not_looking s r p h = ground arith

shut_at :
    (s : State) (i : Io)
    → s.io ≡ i
    → ¬ Offers i s.readdone_inactive
    → ¬ Offers s.io s.readdone_inactive
shut_at s i e = subst (λ x. ¬ Offers x s.readdone_inactive) (sym e)

offer-Waits :
    (s t : State) (b : Bool)
    → t.waiting_readers ≡ s.waiting_readers
    → t.io ≡ offered
    → Unread t
    → Waits b s
    → Waits false t
offer-Waits s t true e at u w = (e ∙ w, subst (λ x. Offers x t.readdone_inactive) (sym at) tt, u)
offer-Waits s t false e at u w = (e ∙ w.0, subst (λ x. Offers x t.readdone_inactive) (sym at) tt, u)

-- The reader that sp_iothread finds waiting is told of the line.
offer-Stands :
    (s : State) (r : Reader)
    → r ≢ woken
    → r ≢ timed_out
    → 0 < s.waiting_readers
    → Unread s
    → Stands r s
    → Stands r (record s { io = offered; readline_inactive = false })
offer-Stands s idle a b n u p = absurd (omega arith)
offer-Stands s looking a b n u p = absurd (omega arith)
offer-Stands s missed a b n u p = absurd (omega arith)
offer-Stands s waiting a b n u p =
    let t = record s { io = offered; readline_inactive = false } in
    offer-Waits s t s.readline_inactive refl refl (same-Unread s t refl refl refl refl u) p
offer-Stands s woken a b n u p = absurd (a refl)
offer-Stands s timed_out a b n u p = absurd (b refl)
offer-Stands s signalling a b n u p = absurd (omega arith)
offer-Stands s locking a b n u p = absurd (omega arith)

await-Waits :
    (s : State) (b : Bool)
    → Waits b s
    → Waits b (record s { io = awaiting; readdone_inactive = true })
await-Waits s true w = w
await-Waits s false w = (w.0, refl, same-Unread s _ refl refl refl refl w.2)

await-Stands :
    (s : State) (r : Reader)
    → s.io ≢ reading
    → Stands r s
    → Stands r (record s { io = awaiting; readdone_inactive = true })
await-Stands s idle h p = p
await-Stands s looking h p = absurd (h p.1)
await-Stands s missed h p = p
await-Stands s waiting h p = await-Waits s s.readline_inactive p
await-Stands s woken h p = (p.0, refl, same-Unread s _ refl refl refl refl p.2)
await-Stands s timed_out h p = p
await-Stands s signalling h p = p
await-Stands s locking h p = p

pub IoStep-IsConsistent : {s t : State} → IoStep s t → IsConsistent s → IsConsistent t
IoStep-IsConsistent (take_line s readbuf input torn _ _ at free) c =
    let line = line_of (read_line readbuf 0 input).1 in
    let t = record s {
      io = filling line;
      read_id = suc s.read_id;
      buf = torn;
      received = line ∷ s.received;
    } in
    let u : Unread t = record {
      line = line;
      lines = s.received;
      last = refl;
      given = accounted s c;
      older = omega (arith, not_ahead s c);
    } in
    record {
      ids = ap suc c.ids;
      tally = inr u;
      buffer = ((s.received, refl), u);
      stands = same-Stands s t s.reader (shut_at s reading at (λ x. x)) refl refl free c.stands;
    }
IoStep-IsConsistent (store_line s line at) c =
    let t = record s { io = filled; buf = line ++ 0 ∷ [] } in
    let ((lines, e), u) = buffer_at s (filling line) at c in
    record {
      ids = c.ids;
      tally = same_tally s t refl refl refl refl c;
      buffer = (rw e, same-Unread s t refl refl refl refl u);
      stands =
          same-Stands s t s.reader (shut_at s (filling line) at (λ x. x)) refl refl
            (not_looking s s.reader c.stands (ground arith)) c.stands;
    }
IoStep-IsConsistent (nobody_waits s at _ _ zero_waits) c = record {
  ids = c.ids;
  tally = same_tally s _ refl refl refl refl c;
  buffer = (buffer_at s filled at c).0;
  stands =
      same-Stands s _ s.reader (shut_at s filled at (λ x. x)) refl refl
        (not_looking s s.reader c.stands (ground arith)) c.stands;
}
IoStep-IsConsistent (offer s at not_woken not_late some_wait) c =
    let b = buffer_at s filled at c in
    record {
      ids = c.ids;
      tally = same_tally s _ refl refl refl refl c;
      buffer = b.0;
      stands = offer-Stands s s.reader not_woken not_late some_wait b.1 c.stands;
    }
IoStep-IsConsistent (await s at) c = record {
  ids = c.ids;
  tally = same_tally s _ refl refl refl refl c;
  buffer = buffer_at s offered at c;
  stands = await-Stands s s.reader (ground arith) c.stands;
}
IoStep-IsConsistent (resume s at done) c = record {
  ids = c.ids;
  tally = same_tally s _ refl refl refl refl c;
  buffer = buffer_at s awaiting at c;
  stands =
      same-Stands s _ s.reader (shut_at s awaiting at (λ x. ground arith)) refl refl
        (not_looking s s.reader c.stands (ground arith)) c.stands;
}
