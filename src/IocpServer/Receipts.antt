-- ===== src/IocpServer/Receipts.antt =====
-- IOCPSession.cpp, `Recv`: Windows puts bytes into the buffer of a session, where its `WSABUF` says, at any
-- time before a worker gets the completion.
use iocp_chat_server.Base.{
  ℕ, ◌≡◌, refl, inl, inr, none, some, Bool, true, not, List, Option, arith, length, take, ◌∙◌,
  Bool-cases, Option-cases, if◌then◌else◌,
}
use iocp_chat_server.Base.Bytes.{length-write_at}
use iocp_chat_server.Network.{WsaBuf}
use iocp_chat_server.Network.IoData.{socket_buf_size, outside_array}
use iocp_chat_server.Network.IocpSession.{IocpSession}
use iocp_chat_server.Network.IocpSession.Buffers.{Full}
use iocp_chat_server.Network.IocpSession.Reassembly.{filled_in, deliver}
use iocp_chat_server.SessionManager.Memory.{Pointer, World, M, done, fault, out_of_bounds, update}
use iocp_chat_server.SessionManager.Changes.{Sound, ChangesOrOverreads, logs, writes}

-- The bytes lie in the array. The length in the `WSABUF` comes from a header that nothing checks.
abbrev pub lies_within : Option WsaBuf → List ℕ → Bool
lies_within none bytes = true
lies_within (some b) bytes = not (outside_array b.buf (length (take b.len bytes)))

-- A session that is gone has no receive under way, since its socket is closed.
abbrev pub receive_at : Option IocpSession → Pointer → List ℕ → M (Unit {0})
receive_at none p bytes w = done tt w
receive_at (some s) p bytes w =
    if lies_within s.posted bytes
    then done tt (record w { heap = update w.heap p (some (deliver s bytes)) })
    else fault out_of_bounds

unfoldable pub windows_receives : Pointer → List ℕ → M (Unit {0})
windows_receives p bytes w = receive_at (w.heap p) p bytes w

length-filled_in :
    (posted : Option WsaBuf) (buffer bytes : List ℕ)
    → length buffer ≡ socket_buf_size
    → lies_within posted bytes ≡ true
    → length (filled_in posted buffer bytes) ≡ socket_buf_size
unfolding filled_in
length-filled_in none buffer bytes h inside = h
length-filled_in (some b) buffer bytes h inside =
    length-write_at buffer b.buf (take b.len bytes) (ground (arith, h)) ∙ h

deliver-Full :
    (s : IocpSession) (bytes : List ℕ)
    → lies_within s.posted bytes ≡ true
    → Full s
    → Full (deliver s bytes)
unfolding deliver
deliver-Full s bytes inside f = record {
  reads = length-filled_in s.posted s.read.buffer bytes f.reads inside;
  writes = f.writes;
}

pub windows_receives-Changes :
    (p : Pointer) (bytes : List ℕ) (w : World)
    → Sound w
    → ChangesOrOverreads p w (windows_receives p bytes w)
unfolding windows_receives deliver
windows_receives-Changes p bytes w i = elim (Option-cases (w.heap p)) [
  | inl gone ↦ rw gone (logs w.effects)
  | inr (s, e) ↦ elim (Bool-cases (lies_within s.posted bytes)) [
    | inl inside ↦
        rw (e, inside)
          (writes s (deliver s bytes) (i.owned p s e) e (deliver-Full s bytes inside) refl)
    | inr outside ↦ rw (e, outside) refl
  ]
]
