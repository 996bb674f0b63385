-- ===== src/SessionManager.antt =====
-- SessionManager.cpp and SessionManager.h, with `Session::OnClose` and the destructor of `Session`,
-- which call back into the manager, and SessionMonitor.cpp.
pub mod Memory
pub mod Pointers
pub mod Close
pub mod Invariant
pub mod Add
pub mod Reaping
pub mod Teardown
pub mod Lookup
pub mod Frame
pub mod Changes
pub mod Directory
pub mod RunCommand
use iocp_chat_server.Base.{
  ℕ, zero, suc, ◌+◌, ◌-◌, ◌*◌, ◌%◌, ◌^◌, none, Bool, true, false, List, [], ◌∷◌, ◌++◌, ◌==◌, ltb,
  ◌||◌, ◌&&◌, if◌then◌else◌,
}
use iocp_chat_server.Base.Int.{ℤ, pos, ◌+ℤ◌, ◌-ℤ◌, ltb_ℤ}
use iocp_chat_server.Network.IocpSession.{IocpSession, set_id}
use iocp_chat_server.Session
use Memory.{
  Pointer, World, M, out_of_fuel, fault, done, pure, ◌>>=◌, ◌>>◌, load, store, emit, free,
  closes_socket, lingers, logs_busy,
}

abbrev pub session_capacity : ℤ
session_capacity = pos 5000

-- The manager is a static object, so `sessionCount_`, which the constructor leaves out, starts at 0.
unfoldable pub make : ℤ → World
make max_connection = record {
  session_list = [];
  session_count = pos 0;
  max_connection = max_connection;
  session_seed = 1;
  heap = λ _. none;
  effects = [];
}

-- `std::find (…) != end ()`
unfoldable pub contains : Pointer → List Pointer → Bool
contains p [] = false
contains p (q ∷ qs) = q == p || contains p qs

-- `list::remove` takes out every element that is equal.
unfoldable pub remove : Pointer → List Pointer → List Pointer
remove p [] = []
remove p (q ∷ qs) = if q == p then remove p qs else q ∷ remove p qs

unfoldable pub create_session_id : M ℕ
create_session_id w =
    done w.session_seed (record w { session_seed = (w.session_seed + 1) % 2 ^ 64 })

append_session : Pointer → M (Unit {0})
append_session p w =
    done tt (record w {
      session_list = w.session_list ++ p ∷ [];
      session_count = w.session_count +ℤ pos 1;
    })

unfoldable pub add_session : Pointer → M Bool
unfolding contains create_session_id load store emit append_session set_id ◌+ℤ◌
add_session p w =
    if contains p w.session_list
    then done false w
    else if ltb_ℤ w.max_connection w.session_count
    then (do emit logs_busy; pure false) w
    else (do s ← load p; id ← create_session_id; store p (set_id s id); append_session p; pure true)
        w

remove_session : Pointer → M (Unit {0})
unfolding remove
remove_session p w =
    done tt (record w {
      session_list = remove p w.session_list;
      session_count = w.session_count -ℤ pos 1;
    })

-- `delete session`: the destructor of `Session` calls `OnClose ()`, which is `CloseSession (this)`,
-- here `close`; then the memory is given back.
unfoldable pub destroy : (Pointer → M Bool) → Pointer → M (Unit {0})
unfolding free
destroy close p = do close p; free p

-- `CloseSession` deletes the session, whose destructor calls `CloseSession` again. The fuel bounds
-- how deep the calls go.
unfoldable pub close_session : ℕ → Pointer → M Bool
unfolding contains load emit remove_session destroy ◌-ℤ◌
close_session zero p w = fault out_of_fuel
close_session (suc fuel) p w =
    let listed : M Bool = (do
      s ← load p
      emit (closes_socket s.socket)
      remove_session p
      destroy (close_session fuel) p
      pure true) in
    if p == 0 then done false w else if contains p w.session_list then listed w else done false w

unfoldable pub force_close_session : ℕ → Pointer → M (Unit {0})
unfolding load emit
force_close_session fuel p w =
    if p == 0
    then done tt w
    else (do s ← load p; emit (lingers s.socket); close_session fuel p; pure tt) w

-- `Session::OnClose`
unfoldable pub on_close : ℕ → Pointer → Bool → M (Unit {0})
on_close fuel p true = force_close_session fuel p
on_close fuel p false = do close_session fuel p; pure tt

-- The loop of `GetSession`; 0 is the `nullptr` that it starts with.
unfoldable pub find_id : ℕ → List Pointer → M Pointer
unfolding load
find_id id [] w = done 0 w
find_id id (p ∷ ps) w =
    let rest = find_id id ps in (do s ← load p; if s.id == id then pure p else rest) w

unfoldable pub get_session : ℕ → M Pointer
unfolding find_id
get_session id w = find_id id w.session_list w

-- The destructor closes the sessions of a copy of the list.
unfoldable pub close_each : ℕ → List Pointer → M (Unit {0})
unfolding load
close_each fuel [] w = done tt w
close_each fuel (p ∷ ps) w =
    let rest = close_each fuel ps in (do load p; on_close fuel p false; rest) w

clear_sessions : M (Unit {0})
clear_sessions w = done tt (record w { session_list = [] })

unfoldable pub destroy_manager : ℕ → M (Unit {0})
unfolding close_each clear_sessions
destroy_manager fuel w = (do close_each fuel w.session_list; clear_sessions) w

-- SessionMonitor.cpp: what one round does with a session. `now - lastTick` is signed, and a negative
-- difference is not above the limit.
abbrev pub max_heart_beat : ℕ
max_heart_beat = 30 * 1000

abbrev pub is_client : Session.SessionType → Bool
is_client Session.session_type_client = true
is_client Session.session_type_terminal = false

unfoldable pub is_expired : ℕ → IocpSession → Bool
is_expired now s = is_client s.type && ltb max_heart_beat (now - s.last_heart_beat)

unfoldable pub check_each : ℕ → ℕ → List Pointer → M (Unit {0})
unfolding load
check_each fuel now [] w = done tt w
check_each fuel now (p ∷ ps) w =
    let rest = check_each fuel now ps in
    (do s ← load p; if is_expired now s then on_close fuel p true else pure tt; rest) w

-- `Tick` goes through a copy of the list.
unfoldable pub tick : ℕ → ℕ → M (Unit {0})
tick fuel now w = check_each fuel now w.session_list w
