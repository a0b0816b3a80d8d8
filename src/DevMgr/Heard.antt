-- ===== src/DevMgr/Heard.antt =====
-- Acknowledgements and frames among what sub_devmgr_socket of main/cmd_devmgr.c receives.
use otdb.Base.{ℕ, ◌+◌, ◌≡◌, List, [], ◌∷◌, ◌++◌, true, some, length, take, drop, min}
use otdb.Base.Int.{ℤ, pos}
use otdb.Text.{codes}
use otdb.Args.{low_bits}
use otdb.DevMgr.{Payload, Message, message, Event, gettype, number_or}

-- A message that acknowledges the command with the session `sid`.
pub record IsAck (sid : ℕ) (e : Event) : Type 0 where
  pub top : Message
  pub payload : Payload
  pub arrived : e.received ≡ message top
  pub kind : gettype top (codes "ack") ≡ true
  pub has_payload : top.payload ≡ some payload
  pub no_error : payload.err ≡ some (pos 0)
  pub session : low_bits 32 (number_or (pos 0) payload.sid) ≡ sid

-- A message with the frame of the session `sid`, received without errors.
pub record IsFrame (sid : ℕ) (text : List ℕ) (e : Event) : Type 0 where
  pub top : Message
  pub payload : Payload
  pub session : ℤ
  pub arrived : e.received ≡ message top
  pub kind : gettype top (codes "rxstat") ≡ true
  pub has_payload : top.payload ≡ some payload
  pub has_session : payload.sid ≡ some session
  pub same_session : low_bits 32 session ≡ sid
  pub quality : number_or (pos 0) payload.qual ≡ pos 0
  pub has_frame : payload.frame ≡ some (some text)

pub data Follows (sid : ℕ) (text : List ℕ) : List Event → Type 0 where
  now : {e : Event} {es : List Event} → IsFrame sid text e → Follows sid text (e ∷ es)
  later : {e : Event} {es : List Event} → Follows sid text es → Follows sid text (e ∷ es)

-- An acknowledgement, and after it the frame of its session.
pub data Answered (text : List ℕ) : List Event → Type 0 where
  acked :
      {e : Event} {es : List Event} (sid : ℕ)
      → IsAck sid e
      → Follows sid text es
      → Answered text (e ∷ es)
  passed : {e : Event} {es : List Event} → Answered text es → Answered text (e ∷ es)

-- How many bytes are copied, and the memory then.
abbrev pub copied : ℕ → List ℕ → ℕ
copied dstmax text = min (length text + 1) dstmax

abbrev pub filled : ℕ → List ℕ → List ℕ → List ℕ
filled dstmax text dst = take (copied dstmax text) (text ++ 0 ∷ []) ++ drop (copied dstmax text) dst
