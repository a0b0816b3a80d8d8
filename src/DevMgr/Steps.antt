-- ===== src/DevMgr/Steps.antt =====
-- What one round of the loop of sub_devmgr_socket in main/cmd_devmgr.c can do, by what was received.
use otdb.Base.{
  ℕ, zero, suc, ◌+◌, ◌<◌, ◌≤◌, ◌≡◌, ◌∙◌, refl, ap, List, [], ◌∷◌, ◌++◌, Bool, true, false, Option,
  none, some, ◌⊎◌, inl, inr, arith, take, drop, ◌==◌, ◌&&◌, Bool-cases,
}
use otdb.Base.Int.{ℤ, pos, negsuc, pos_part, neg_part, sub_ℕ, ltb_ℤ, ◌-ℤ◌, minus_stays_negative}
use otdb.Base.Branch.{if-both}
use otdb.Text.{codes}
use otdb.Args.{low_bits}
use otdb.DevMgr.{
  Payload, Message, Received, nothing, not_json, message, Event, gettype, number_or, ack_of,
  payload_ack, getack, rx_of, payload_rx, getframe, Wait, Verdict, term, rest, on_ack, copy_frame,
  on_frame, on_rxstat, on_message, on_received, Turn, finished, again, sendcmd, retract, conclude,
  step,
}
use otdb.DevMgr.Heard.{IsAck, IsFrame, copied, filled}

module _ (dstmax : ℕ) (e : Event) (w : Wait) where
  pub data Next (state sid : ℕ) : Type 0 where
    idle : state ≡ 0 → Next state sid
    heard : state ≡ 1 → IsAck sid e → Next state sid
    kept : state ≡ w.state → sid ≡ w.cmd_sid → Next state sid
    spent : 2 ≤ state → Next state sid

  pub record Delivered (rc : ℤ) (dst : List ℕ) : Type 0 where
    pub text : List ℕ
    pub waited : w.state ≡ 1
    pub frame : IsFrame w.cmd_sid text e
    pub count : rc ≡ sub_ℕ (copied dstmax text) 1
    pub memory : dst ≡ filled dstmax text w.dst
    pub room : 0 < copied dstmax text

  abbrev Judged : Verdict → Type 0
  Judged (term rc) = pos_part rc ≡ 0
  Judged (rest rc v) =
      ((pos_part rc ≡ 0) × (v.dst ≡ w.dst) × Next v.state v.cmd_sid) ⊎ Delivered rc v.dst

  abbrev pub Stepped : Turn → Type 0
  Stepped (finished rc d) = (pos_part rc ≡ 0) ⊎ Delivered rc d
  Stepped (again v) = (v.dst ≡ w.dst) × Next v.state v.cmd_sid

  sendcmd-Stepped : (sent : Bool) (v : Wait) → v.dst ≡ w.dst → Stepped (sendcmd sent v)
  unfolding sendcmd
  sendcmd-Stepped true v d = (d, idle refl)
  sendcmd-Stepped false v d = inl refl

  retract-Stepped :
      (o : Option ℕ) (sent : Bool) (rc : ℤ) (v : Wait)
      → (pos_part rc ≡ 0)
      → (v.dst ≡ w.dst)
      → Next v.state v.cmd_sid
      → Stepped (retract o sent rc v)
  unfolding retract
  retract-Stepped none sent rc v z d n = inl refl
  retract-Stepped (some ms) sent rc v z d n =
      let v2 = record v { timeout = v.timeout -ℤ pos ms } in
      if-both Stepped (ltb_ℤ (pos 0) v2.timeout) _ _
        (λ _.
          if-both Stepped (pos_part rc == 0 && neg_part rc == 4) _ _
            (λ _. sendcmd-Stepped sent v2 d) (λ _. (d, n)))
        (λ _. inl z)

  conclude-Stepped : (j : Verdict) → Judged j → Stepped (conclude e w.dst j)
  unfolding conclude
  conclude-Stepped (term rc) z = inl z
  conclude-Stepped (rest rc v) (inl (z, d, n)) =
      if-both Stepped (ltb_ℤ rc (pos 0)) _ _ (λ _. retract-Stepped e.elapsed e.sent rc v z d n)
        (λ _. inl z)
  conclude-Stepped (rest rc v) (inr d) =
      if-both Stepped (ltb_ℤ rc (pos 0)) _ _ (λ h. absurd (ground (arith, d.count, d.room, h)))
        (λ _. inr d)

  module _ (m : Message) (arr : e.received ≡ message m) (sid : ℕ) where
    ack_of-IsAck :
        (p : Payload) (o : Option ℤ)
        → gettype m (codes "ack") ≡ true
        → m.payload ≡ some p
        → p.err ≡ o
        → pos_part (ack_of sid o p.sid).0 + neg_part (ack_of sid o p.sid).0 ≡ 0
        → IsAck (ack_of sid o p.sid).1 e
    unfolding ack_of
    ack_of-IsAck p none k h r z = absurd (omega arith)
    ack_of-IsAck p (some n) k h r z = record {
      top = m;
      payload = p;
      arrived = arr;
      kind = k;
      has_payload = h;
      no_error = r ∙ ap some (ground arith);
      session = refl;
    }

    payload_ack-IsAck :
        (o : Option Payload)
        → gettype m (codes "ack") ≡ true
        → m.payload ≡ o
        → pos_part (payload_ack sid o).0 + neg_part (payload_ack sid o).0 ≡ 0
        → IsAck (payload_ack sid o).1 e
    unfolding payload_ack
    payload_ack-IsAck none k h z = absurd (omega arith)
    payload_ack-IsAck (some p) k h z = ack_of-IsAck p p.err k h refl z

  on_ack-Judged : (m : Message) → e.received ≡ message m → w.state ≡ 0 → Judged (on_ack m w)
  unfolding on_ack getack
  on_ack-Judged m arr st =
      if-both Judged (gettype m (codes "ack")) _ _
        (λ k.
          let (err, sid) = getack w.cmd_sid m in
          if-both Judged (pos_part err + neg_part err == 0) _ _
            (λ z.
              if-both Judged (sid == 0) _ _ (λ _. refl)
                (λ _. inl (
                  refl,
                  refl,
                  heard refl (payload_ack-IsAck m arr w.cmd_sid m.payload k refl (ground arith)),
                )))
            (λ _. minus_stays_negative 255 (pos_part err + neg_part err)))
        (λ _. inl (refl, refl, kept refl refl))

  copy_frame-Judged :
      (text : List ℕ) (v : Wait)
      → w.state ≡ 1
      → IsFrame w.cmd_sid text e
      → v.dst ≡ w.dst
      → 2 ≤ v.state
      → Judged (copy_frame dstmax text v)
  unfolding copy_frame
  copy_frame-Judged text v st f d n = elim (Bool-cases (copied dstmax text == 0)) [
    | inl z ↦
        let none_left : copied dstmax text ≡ 0 = ground arith in
        inl (ground arith, rw none_left d, spent n)
    | inr r ↦ inr (record {
      text = text;
      waited = st;
      frame = f;
      count = refl;
      memory =
          ap (λ u. take (copied dstmax text) (text ++ 0 ∷ []) ++ drop (copied dstmax text) u) d;
      room = ground arith;
    })
  ]

  on_frame-none : (v : Wait) → v.dst ≡ w.dst → 2 ≤ v.state → Judged (on_frame dstmax none v)
  unfolding on_frame
  on_frame-none v d n = inl (refl, d, spent n)

  on_frame-Judged :
      (m : Message) (p : Payload) (s : ℤ) (f : Option (Option (List ℕ))) (v : Wait)
      → e.received ≡ message m
      → gettype m (codes "rxstat") ≡ true
      → m.payload ≡ some p
      → p.sid ≡ some s
      → low_bits 32 s ≡ w.cmd_sid
      → number_or (pos 0) p.qual ≡ pos 0
      → p.frame ≡ f
      → w.state ≡ 1
      → v.dst ≡ w.dst
      → 2 ≤ v.state
      → Judged (on_frame dstmax f v)
  unfolding on_frame
  on_frame-Judged m p s none v arr k hp hs ss q hf st d n = inl (refl, d, spent n)
  on_frame-Judged m p s (some none) v arr k hp hs ss q hf st d n = inl (refl, d, spent n)
  on_frame-Judged m p s (some (some text)) v arr k hp hs ss q hf st d n =
      copy_frame-Judged text v st
        (record {
          top = m;
          payload = p;
          session = s;
          arrived = arr;
          kind = k;
          has_payload = hp;
          has_session = hs;
          same_session = ss;
          quality = q;
          has_frame = hf;
        })
        d n

  module _ (m : Message) (arr : e.received ≡ message m) (v : Wait) (st : w.state ≡ 1)
      (d : v.dst ≡ w.dst) (n : 2 ≤ v.state) where
    rx_of-Judged :
        (p : Payload) (o : Option ℤ)
        → gettype m (codes "rxstat") ≡ true
        → m.payload ≡ some p
        → p.sid ≡ o
        → low_bits 32 (rx_of o p).session ≡ w.cmd_sid
        → (rx_of o p).qual ≡ pos 0
        → Judged (on_frame dstmax (rx_of o p).frame v)
    unfolding rx_of
    rx_of-Judged p none k h hs ss q = on_frame-none v d n
    rx_of-Judged p (some s) k h hs ss q =
        on_frame-Judged m p s p.frame v arr k h hs ss q refl st d n

    payload_rx-Judged :
        (o : Option Payload)
        → gettype m (codes "rxstat") ≡ true
        → m.payload ≡ o
        → low_bits 32 (payload_rx o).session ≡ w.cmd_sid
        → (payload_rx o).qual ≡ pos 0
        → Judged (on_frame dstmax (payload_rx o).frame v)
    unfolding payload_rx
    payload_rx-Judged none k h ss q = on_frame-none v d n
    payload_rx-Judged (some p) k h ss q = rx_of-Judged p p.sid k h refl ss q

  on_rxstat-Judged :
      (m : Message) → e.received ≡ message m → w.state ≡ 1 → Judged (on_rxstat dstmax m w)
  unfolding on_rxstat getframe
  on_rxstat-Judged m arr st =
      let rx = payload_rx m.payload in
      let v = record w { state = 2 } in
      let same : Judged (rest (negsuc 0) w) = inl (refl, refl, kept refl refl) in
      if-both Judged (gettype m (codes "rxstat")) _ _
        (λ k.
          if-both Judged (w.cmd_sid == low_bits 32 rx.session) _ _
            (λ s.
              if-both Judged (pos_part rx.qual + neg_part rx.qual == 0) _ _
                (λ q.
                  payload_rx-Judged m arr v st refl (omega arith) m.payload k refl (ground arith)
                    (ground (arith, q)))
                (λ _. inl (refl, refl, spent (omega arith))))
            (λ _. same))
        (λ _. same)

  on_message-Judged :
      (m : Message) (n : ℕ)
      → e.received ≡ message m
      → w.state ≡ n
      → Judged (on_message dstmax m n w)
  unfolding on_message
  on_message-Judged m zero arr st = on_ack-Judged m arr st
  on_message-Judged m (suc zero) arr st = on_rxstat-Judged m arr st
  on_message-Judged m (suc (suc n)) arr st = inl (refl, refl, kept refl refl)

  on_received-Judged : (r : Received) → e.received ≡ r → Judged (on_received dstmax r w)
  unfolding on_received
  on_received-Judged nothing arr = inl (refl, refl, kept refl refl)
  on_received-Judged not_json arr = inl (refl, refl, kept refl refl)
  on_received-Judged (message m) arr = on_message-Judged m w.state arr refl

  pub step-Stepped : Stepped (step dstmax e w)
  unfolding step
  step-Stepped =
      conclude-Stepped (on_received dstmax e.received w) (on_received-Judged e.received refl)
