-- ===== src/Examples/Config.antt =====
-- Server.cpp, TerminalManager.cpp, TerminalSession.cpp and SessionMonitor.cpp: a configuration with a
-- server and two terminals of the same name.
use iocp_chat_server.Base.{ℕ, ◌≡◌, refl, some, [], ◌∷◌, length, if◌then◌else◌, ◌==◌}
use iocp_chat_server.Base.Int.{pos}
use iocp_chat_server.Base.Text.{codes, same_text}
use iocp_chat_server.Config.{Xml, Scan, gives, find_child, first_child}
use iocp_chat_server.Server.{Server, server_stop, server_initialize, copy_ip, text_of}
use iocp_chat_server.Terminal.Manager.{
  Endpoint, TerminalManager, get, put, add_each, read_terminal, add_each-get, named, or_else,
}
use iocp_chat_server.Task.{Clock}

-- Elements by numbers: 0 is the document, 1 "App", 2 "Server" with 3 to 5, 6 "Name", 7 and 10 two
-- terminals with their addresses and ports.
abbrev xml : Xml
xml = record {
  Element = ℕ;
  children = λ e.
      if e == 0
      then 1 ∷ []
      else if e == 1
      then 2 ∷ 6 ∷ []
      else if e == 2
      then 3 ∷ 4 ∷ 5 ∷ []
      else if e == 7
      then 8 ∷ 9 ∷ []
      else if e == 10
      then 11 ∷ 12 ∷ []
      else [];
  value = λ e.
      if e == 1
      then codes "App"
      else if e == 2
      then codes "Server"
      else if (e == 3)
      then codes "IP"
      else if (e == 8)
      then codes "IP"
      else if (e == 11)
      then codes "IP"
      else if (e == 4)
      then codes "Port"
      else if (e == 9)
      then codes "Port"
      else if (e == 12)
      then codes "Port"
      else if e == 5
      then codes "ThreadCount"
      else if e == 6
      then codes "Name"
      else codes "db";
  get_text = λ e.
      if e == 3
      then some (codes "1.2.3.4")
      else if e == 8
      then some (codes "5.6.7.8")
      else if e == 11
      then some (codes "9.9.9.9")
      else some (codes "80");
}

abbrev scan_80 : Scan
scan_80 t = some (pos 80)

abbrev memory : Server
memory = record { ip = []; port = pos 0; worker_thread_count = pos 0; status = server_stop }

abbrev read : Server
read = record {
  ip = codes "1.2.3.4";
  port = pos 80;
  worker_thread_count = pos 80;
  status = server_initialize;
}

abbrev first : Endpoint
first = record { ip = codes "5.6.7.8"; port = pos 80 }

abbrev second : Endpoint
second = record { ip = codes "9.9.9.9"; port = pos 80 }

abbrev no_terminals : TerminalManager
no_terminals = record { terminal_pool = []; started = [] }

abbrev terminals : TerminalManager
terminals = record { terminal_pool = (codes "db", first) ∷ []; started = second ∷ first ∷ [] }

added : add_each xml scan_80 (λ t. t) (pos 0) no_terminals (7 ∷ 10 ∷ []) ≡ gives terminals
unfolding add_each read_terminal put get find_child first_child same_text copy_ip text_of
added = refl

-- `Get` finds the first; the second is started, and no name leads to it.
add_each-get_example :
    (get (codes "db") terminals.terminal_pool
      ≡ or_else
          (get (codes "db") [])
          (named xml scan_80 (λ t. t) (pos 0) (codes "db") (7 ∷ 10 ∷ [])))
    × (length terminals.started ≡ 2)
add_each-get_example =
    add_each-get xml scan_80 (λ t. t) (pos 0) no_terminals terminals (7 ∷ 10 ∷ []) (codes "db")
      added

abbrev stopped : Clock
stopped n = pos 1002
