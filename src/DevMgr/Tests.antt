-- ===== src/DevMgr/Tests.antt =====
-- Exchanges with the device manager on concrete messages.
use otdb.Base.{ℕ, ◌+◌, ◌≤◌, ◌≡◌, refl, List, [], ◌∷◌, ◌++◌, true, none, some, arith}
use otdb.Base.Int.{ℤ, pos, negsuc, ◌-ℤ◌}
use otdb.Text.{codes}
use otdb.Args.{low_bits}
use otdb.DevMgr.{
  Received, nothing, not_json, message, Event, finished, devmgr_socket, rounds, step, on_received,
  on_message, on_ack, on_rxstat, gettype, is_kind, getack, payload_ack, ack_of, number_or, getframe,
  payload_rx, rx_of, on_frame, copy_frame, conclude, retract, sendcmd, and_then,
}
use otdb.DevMgr.Heard.{Answered}
use otdb.DevMgr.Answer.{Backed, devmgr_socket-Backed}
use otdb.DevMgr.Timeout.{Ended, devmgr_socket-Ended}

abbrev event : Received → ℕ → Event
event r ms = record { received = r; elapsed = some ms; sent = true }

abbrev ack : Received
ack = message (record {
  kind = some (codes "ack");
  payload = some (record { err = some (pos 0); sid = some (pos 7); qual = none; frame = none });
})

abbrev rxstat : ℤ → Received
rxstat sid = message (record {
  kind = some (codes "rxstat");
  payload = some (record {
    err = none;
    sid = some sid;
    qual = some (pos 0);
    frame = some (some (codes "0011"));
  });
})

abbrev buffer : List ℕ
buffer = codes "........"

abbrev answered : List Event
answered =
    event not_json 10 ∷ event ack 20 ∷ event (rxstat (pos 3)) 30 ∷ event (rxstat (pos 7)) 40 ∷ []

abbrev silence : List Event
silence = event nothing 800 ∷ event nothing 1600 ∷ event nothing 2400 ∷ []

frame_returned :
    devmgr_socket true true true 8 answered buffer
    ≡ finished (pos 4) (codes "0011" ++ (0 ∷ codes "..."))
unfolding devmgr_socket rounds step on_received on_message on_ack on_rxstat gettype is_kind getack
    payload_ack ack_of number_or getframe payload_rx rx_of on_frame copy_frame conclude retract
    sendcmd and_then low_bits otdb.Base.Int.◌-ℤ◌
frame_returned = refl

devmgr_socket-Backed_example :
    Backed 8
      (λ text. Answered text answered)
      buffer
      (devmgr_socket true true true 8 answered buffer)
devmgr_socket-Backed_example = devmgr_socket-Backed true true true 8 answered buffer

devmgr_socket-Ended_example : Ended (devmgr_socket true true true 8 silence buffer)
devmgr_socket-Ended_example = devmgr_socket-Ended true true true 8 silence buffer (omega arith)
