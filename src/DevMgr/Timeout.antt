-- ===== src/DevMgr/Timeout.antt =====
-- The loop of sub_devmgr_socket in main/cmd_devmgr.c ends by its timeout.
use otdb.Base.{
  ℕ, zero, suc, ◌+◌, ◌-◌, ◌<◌, ◌≤◌, ◌≡◌, refl, sym, List, [], ◌∷◌, Bool, true, false, Option, none,
  some, arith, ◌==◌, ◌&&◌, ◌^◌,
}
use otdb.Base.Int.{ℤ, pos, pos_part, neg_part, ltb_ℤ, ◌-ℤ◌, -ℤ_parts}
use otdb.Base.Branch.{if-both}
use otdb.Text.{codes}
use otdb.Args.{low_bits}
use otdb.DevMgr.{
  Message, Received, nothing, not_json, message, Event, gettype, getack, getframe, Wait, Verdict,
  term, rest, on_ack, copy_frame, on_frame, on_rxstat, on_message, on_received, Turn, finished,
  again, sendcmd, retract, conclude, step, and_then, rounds, devmgr_socket,
}

abbrev ms_or_zero : Option ℕ → ℕ
ms_or_zero none = 0
ms_or_zero (some ms) = ms

-- The sum of the clock's readings, each since the start.
abbrev pub readings : List Event → ℕ
readings [] = 0
readings (e ∷ es) = ms_or_zero e.elapsed + readings es

abbrev pub Ended : Turn → Type 0
Ended (finished rc dst) = Unit
Ended (again w) = ⊥

module _ (dstmax : ℕ) (e : Event) (w : Wait) where
  abbrev Same : Verdict → Type 0
  Same (term rc) = Unit
  Same (rest rc v) = v.timeout ≡ w.timeout

  abbrev Less : Turn → Type 0
  Less (finished rc dst) = Unit
  Less (again v) =
      (0 < pos_part v.timeout) × (pos_part v.timeout + ms_or_zero e.elapsed ≤ pos_part w.timeout)

  on_ack-Same : (m : Message) → Same (on_ack m w)
  unfolding on_ack
  on_ack-Same m =
      let (err, sid) = getack w.cmd_sid m in
      if-both Same (gettype m (codes "ack")) _ _
        (λ _.
          if-both Same (pos_part err + neg_part err == 0) _ _
            (λ _. if-both Same (sid == 0) _ _ (λ _. tt) (λ _. refl)) (λ _. tt))
        (λ _. refl)

  on_frame-Same :
      (f : Option (Option (List ℕ))) (v : Wait) → v.timeout ≡ w.timeout → Same (on_frame dstmax f v)
  unfolding on_frame copy_frame
  on_frame-Same none v h = h
  on_frame-Same (some none) v h = h
  on_frame-Same (some (some text)) v h = h

  on_rxstat-Same : (m : Message) → Same (on_rxstat dstmax m w)
  unfolding on_rxstat
  on_rxstat-Same m =
      let rx = getframe m in
      if-both Same (gettype m (codes "rxstat")) _ _
        (λ _.
          if-both Same (w.cmd_sid == low_bits 32 rx.session) _ _
            (λ _.
              if-both Same (pos_part rx.qual + neg_part rx.qual == 0) _ _
                (λ _. on_frame-Same rx.frame (record w { state = 2 }) refl) (λ _. refl))
            (λ _. refl))
        (λ _. refl)

  on_message-Same : (m : Message) (n : ℕ) → Same (on_message dstmax m n w)
  unfolding on_message
  on_message-Same m zero = on_ack-Same m
  on_message-Same m (suc zero) = on_rxstat-Same m
  on_message-Same m (suc (suc n)) = refl

  on_received-Same : (r : Received) → Same (on_received dstmax r w)
  unfolding on_received
  on_received-Same nothing = refl
  on_received-Same not_json = refl
  on_received-Same (message m) = on_message-Same m w.state

  sendcmd-Less : (sent : Bool) (v : Wait) → Less (again v) → Less (sendcmd sent v)
  unfolding sendcmd
  sendcmd-Less true v h = h
  sendcmd-Less false v h = tt

  retract-Less :
      (o : Option ℕ) (sent : Bool) (rc : ℤ) (v : Wait)
      → o ≡ e.elapsed
      → v.timeout ≡ w.timeout
      → Less (retract o sent rc v)
  unfolding retract
  retract-Less none sent rc v q h = tt
  retract-Less (some ms) sent rc v q h =
      let v2 = record v { timeout = v.timeout -ℤ pos ms } in
      if-both Less (ltb_ℤ (pos 0) v2.timeout) _ _
        (λ c.
          let less : Less (again v2) =
            (ground (arith, c), rw (sym q) (ground (arith, c, -ℤ_parts v.timeout (pos ms), h))) in
          if-both Less (pos_part rc == 0 && neg_part rc == 4) _ _ (λ _. sendcmd-Less sent v2 less)
            (λ _. less))
        (λ _. tt)

  conclude-Less : (j : Verdict) → Same j → Less (conclude e w.dst j)
  unfolding conclude
  conclude-Less (term rc) h = tt
  conclude-Less (rest rc v) h =
      if-both Less (ltb_ℤ rc (pos 0)) _ _ (λ _. retract-Less e.elapsed e.sent rc v refl h) (λ _. tt)

  step-Less : Less (step dstmax e w)
  unfolding step
  step-Less = conclude-Less (on_received dstmax e.received w) (on_received-Same e.received)

and_then-Ended :
    (dstmax : ℕ) (e : Event) (w : Wait) (t : Turn) (k : Wait → Turn) (left : ℕ)
    → Less dstmax e w t
    → pos_part w.timeout ≤ ms_or_zero e.elapsed + left
    → ((v : Wait) → 0 < pos_part v.timeout → pos_part v.timeout ≤ left → Ended (k v))
    → Ended (and_then t k)
unfolding and_then
and_then-Ended dstmax e w (finished rc dst) k left l h f = tt
and_then-Ended dstmax e w (again v) k left (p, l) h f = f v p (omega (arith, l, h))

rounds-Ended :
    (dstmax : ℕ) (es : List Event) (w : Wait)
    → 0 < pos_part w.timeout
    → pos_part w.timeout ≤ readings es
    → Ended (rounds dstmax es w)
unfolding rounds
rounds-Ended dstmax [] w p h = absurd (omega arith)
rounds-Ended dstmax (e ∷ es) w p h =
    and_then-Ended dstmax e w (step dstmax e w) (rounds dstmax es) (readings es)
      (step-Less dstmax e w) h (rounds-Ended dstmax es)

-- sub_devmgr_socket returns once the sum of the clock's readings in its rounds, each taken since the
-- start and not since the round before, reaches 3000 ms, whatever is received.
pub devmgr_socket-Ended :
    (reader clock sent : Bool) (dstmax : ℕ) (es : List Event) (dst : List ℕ)
    → 3000 ≤ readings es
    → Ended (devmgr_socket reader clock sent dstmax es dst)
unfolding devmgr_socket and_then sendcmd
devmgr_socket-Ended false clock sent dstmax es dst h = tt
devmgr_socket-Ended true false sent dstmax es dst h = tt
devmgr_socket-Ended true true false dstmax es dst h = tt
devmgr_socket-Ended true true true dstmax es dst h =
    rounds-Ended dstmax es
      (record { state = 0; cmd_sid = 2 ^ 32 - 1; timeout = pos 3000; dst = dst }) (omega arith) h
