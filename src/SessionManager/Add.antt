-- ===== src/SessionManager/Add.antt =====
-- SessionManager.cpp, `AddSession` and `GetSession`.
use iocp_chat_server.Base.{
  ◌+◌, ◌%◌, ◌^◌, ◌≡◌, true, false, [], ◌∷◌, ◌++◌, some, arith, inl, inr, ◌≢◌, length-append,
  Bool-cases,
}
use iocp_chat_server.Base.Int.{pos, ◌+ℤ◌, ltb_ℤ}
use iocp_chat_server.Network.IocpSession.{IocpSession, set_id}
use iocp_chat_server.SessionManager.Memory.{Pointer, World, done, update, logs_busy, ◌>>=◌, load_at}
use iocp_chat_server.SessionManager.{contains, add_session}
use iocp_chat_server.SessionManager.Pointers.{append-Distinct}
use iocp_chat_server.SessionManager.Invariant.{Live-update, Live-append, Inv, Keeps}

-- The world after the session at `p` is added.
unfoldable pub added : Pointer → IocpSession → World → World
added p s w = record w {
  session_list = w.session_list ++ p ∷ [];
  session_count = w.session_count +ℤ pos 1;
  session_seed = (w.session_seed + 1) % 2 ^ 64;
  heap = update w.heap p (some (set_id s w.session_seed));
}

pub add_session-listed :
    (p : Pointer) (w : World) → contains p w.session_list ≡ true → add_session p w ≡ done false w
unfolding add_session
add_session-listed p w c = rw c

pub add_session-busy :
    (p : Pointer) (w : World)
    → contains p w.session_list ≡ false
    → ltb_ℤ w.max_connection w.session_count ≡ true
    → add_session p w ≡ done false (record w { effects = logs_busy ∷ w.effects })
unfolding add_session
add_session-busy p w c b = rw (c, b)

pub add_session-new :
    (p : Pointer) (s : IocpSession) (w : World)
    → contains p w.session_list ≡ false
    → ltb_ℤ w.max_connection w.session_count ≡ false
    → w.heap p ≡ some s
    → add_session p w ≡ done true (added p s w)
unfolding add_session added
add_session-new p s w c b e = rw (c, b, e, ◌>>=◌, load_at)

pub added-Inv :
    (p : Pointer) (s : IocpSession) (w : World)
    → p ≢ 0
    → contains p w.session_list ≡ false
    → ltb_ℤ w.max_connection w.session_count ≡ false
    → Inv w
    → Inv (added p s w)
unfolding added ◌+ℤ◌
added-Inv p s w h c b i =
    let ps = w.session_list in
    record {
      live =
          Live-append _ ps (p ∷ [])
            (Live-update w.heap p (some (set_id s w.session_seed)) ps i.live c)
            (h, (set_id s w.session_seed, ground arith), tt);
      distinct = append-Distinct p ps i.distinct c;
      counted = ground (arith, length-append ps (p ∷ []), i.counted);
      capacity = ground arith;
    }

-- `AddSession` on an allocated session keeps the invariant, with no fault, on every branch.
pub add_session-Inv :
    (p : Pointer) (s : IocpSession) (w : World)
    → p ≢ 0
    → w.heap p ≡ some s
    → Inv w
    → Keeps (add_session p w)
add_session-Inv p s w h e i = elim (Bool-cases (contains p w.session_list)) [
  | inl c ↦ rw (add_session-listed p w c) i
  | inr c ↦ elim (Bool-cases (ltb_ℤ w.max_connection w.session_count)) [
    | inl b ↦ rw (add_session-busy p w c b) (record {
      live = i.live;
      distinct = i.distinct;
      counted = i.counted;
      capacity = i.capacity;
    })
    | inr b ↦ rw (add_session-new p s w c b e) (added-Inv p s w h c b i)
  ]
]
