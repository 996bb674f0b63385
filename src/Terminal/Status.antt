-- ===== src/Terminal/Status.antt =====
-- Terminal.cpp: what `status_` says of the connection.
use iocp_chat_server.Base.{◌≡◌, refl, List, [], ◌∷◌, arith}
use iocp_chat_server.Terminal.{
  terminal_ready, Terminal, Finds, step, connect_process, send_packet, sends_packet,
}

step-ready :
    (t : Terminal) (f : Finds) → t.status ≡ terminal_ready → (step t f).0.status ≡ terminal_ready
unfolding step
step-ready t f r = ground arith

-- Once a terminal is ready it stays so, whatever its thread finds: also after a disconnection and in
-- every attempt to connect again, `SendPacket` sends on the socket.
pub connect_process-ready :
    (t : Terminal) (fs : List Finds)
    → t.status ≡ terminal_ready
    → ((connect_process t fs).0.status ≡ terminal_ready)
      × (send_packet (connect_process t fs).0.status ≡ sends_packet ∷ [])
unfolding connect_process send_packet
connect_process-ready t [] r = (r, rw r refl)
connect_process-ready t (f ∷ fs) r = connect_process-ready (step t f).0 fs (step-ready t f r)
