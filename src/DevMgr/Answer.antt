-- ===== src/DevMgr/Answer.antt =====
-- What sub_devmgr_socket of main/cmd_devmgr.c returns is the frame of the session that was
-- acknowledged.
use otdb.Base.{
  ℕ, zero, suc, ◌-◌, ◌≡◌, refl, sym, List, [], ◌∷◌, Bool, true, false, ◌⊎◌, inl, inr, arith, ◌^◌,
  ◌^◌,
}
use otdb.Base.Int.{ℤ, pos, pos_part, sub_ℕ}
use otdb.DevMgr.{Event, Wait, Turn, finished, again, sendcmd, step, and_then, rounds, devmgr_socket}
use otdb.DevMgr.Heard.{Follows, now, later, Answered, acked, passed, copied, filled}
use otdb.DevMgr.Steps.{Next, idle, heard, kept, spent, Stepped, step-Stepped}

-- What the events must still hold for a frame to be returned from that state.
abbrev Owes : ℕ → ℕ → List ℕ → List Event → Type 0
Owes zero sid text es = Answered text es
Owes (suc zero) sid text es = Follows sid text es ⊎ Answered text es
Owes (suc (suc k)) sid text es = Answered text es

Owes-Answered :
    (state sid : ℕ) (text : List ℕ) (es : List Event) → Answered text es → Owes state sid text es
Owes-Answered zero sid text es a = a
Owes-Answered (suc zero) sid text es a = inr a
Owes-Answered (suc (suc k)) sid text es a = a

-- What is returned and left in memory: no positive number, or a frame that the events hold.
pub record Returns (dstmax : ℕ) (Held : List ℕ → Type 0) (dst : List ℕ) (rc : ℤ) (out : List ℕ)
    : Type 0 where
  pub text : List ℕ
  pub held : Held text
  pub count : rc ≡ sub_ℕ (copied dstmax text) 1
  pub memory : out ≡ filled dstmax text dst

abbrev pub Backed : ℕ → (List ℕ → Type 0) → List ℕ → Turn → Type 0
Backed dstmax Held dst (finished rc out) = (pos_part rc ≡ 0) ⊎ Returns dstmax Held dst rc out
Backed dstmax Held dst (again w) = Unit

Backed-map :
    (dstmax : ℕ) (P Q : List ℕ → Type 0) (dst : List ℕ) (t : Turn)
    → ((text : List ℕ) → P text → Q text)
    → Backed dstmax P dst t
    → Backed dstmax Q dst t
Backed-map dstmax P Q dst (finished rc out) f (inl z) = inl z
Backed-map dstmax P Q dst (finished rc out) f (inr r) =
    inr (record { text = r.text; held = f r.text r.held; count = r.count; memory = r.memory })
Backed-map dstmax P Q dst (again w) f u = u

module _ (dstmax : ℕ) (e : Event) (es : List Event) (w : Wait) where
  earlier :
      (v_state v_sid : ℕ) (text : List ℕ)
      → Next dstmax e w v_state v_sid
      → Owes v_state v_sid text es
      → Owes w.state w.cmd_sid text (e ∷ es)
  earlier zero s text n o = Owes-Answered w.state w.cmd_sid text (e ∷ es) (passed o)
  earlier (suc (suc k)) s text n o = Owes-Answered w.state w.cmd_sid text (e ∷ es) (passed o)
  earlier (suc zero) s text n (inr a) = Owes-Answered w.state w.cmd_sid text (e ∷ es) (passed a)
  earlier (suc zero) s text (idle z) (inl f) = absurd (omega arith)
  earlier (suc zero) s text (heard z a) (inl f) =
      Owes-Answered w.state w.cmd_sid text (e ∷ es) (acked s a f)
  earlier (suc zero) s text (kept z q) (inl f) = rw (sym z, sym q) (inl (later f))
  earlier (suc zero) s text (spent z) (inl f) = absurd (omega arith)

  after_step :
      (t : Turn)
      → Stepped dstmax e w t
      → ((v : Wait)
          → Backed dstmax (λ text. Owes v.state v.cmd_sid text es) v.dst (rounds dstmax es v))
      → Backed dstmax
          (λ text. Owes w.state w.cmd_sid text (e ∷ es))
          w.dst
          (and_then t (rounds dstmax es))
  unfolding and_then
  after_step (finished rc out) (inl z) k = inl z
  after_step (finished rc out) (inr d) k = inr (record {
    text = d.text;
    held = rw d.waited (inl (now d.frame));
    count = d.count;
    memory = d.memory;
  })
  after_step (again v) (d, n) k =
      let shifted =
        Backed-map dstmax (λ text. Owes v.state v.cmd_sid text es)
          (λ text. Owes w.state w.cmd_sid text (e ∷ es)) v.dst (rounds dstmax es v)
          (λ text. earlier v.state v.cmd_sid text n) (k v) in
      rw (sym d) shifted

rounds-Backed :
    (dstmax : ℕ) (es : List Event) (w : Wait)
    → Backed dstmax (λ text. Owes w.state w.cmd_sid text es) w.dst (rounds dstmax es w)
unfolding rounds
rounds-Backed dstmax [] w = tt
rounds-Backed dstmax (e ∷ es) w =
    after_step dstmax e es w (step dstmax e w) (step-Stepped dstmax e w) (rounds-Backed dstmax es)

-- When sub_devmgr_socket returns, it returns no positive number, or it returns what a frame has left
-- in the memory, for a frame that came without errors and with the session of an
-- acknowledgement before it: `dst` begins with the frame and its terminator as far as `dstmax`
-- reaches, is unchanged after that, and the number is one less than the bytes copied.
pub devmgr_socket-Backed :
    (reader clock sent : Bool) (dstmax : ℕ) (es : List Event) (dst : List ℕ)
    → Backed dstmax (λ text. Answered text es) dst (devmgr_socket reader clock sent dstmax es dst)
unfolding devmgr_socket and_then sendcmd
devmgr_socket-Backed false clock sent dstmax es dst = inl refl
devmgr_socket-Backed true false sent dstmax es dst = inl refl
devmgr_socket-Backed true true false dstmax es dst = inl refl
devmgr_socket-Backed true true true dstmax es dst =
    rounds-Backed dstmax es
      (record { state = 0; cmd_sid = 2 ^ 32 - 1; timeout = pos 3000; dst = dst })
