-- ===== src/Server.antt =====
-- Server.cpp and Server.h: the base class of the server, which reads its configuration.
pub mod Initialize
use iocp_chat_server.Base.{
  ℕ, Option, none, some, Bool, false, List, [], ◌∷◌, ◌==◌, ltb, if◌then◌else◌, length,
}
use iocp_chat_server.Base.Int.{ℤ}
use iocp_chat_server.Base.Text.{Text, codes}
use iocp_chat_server.Config.{
  Xml, Scan, Uses, gives, invalid_parameter, ◌>>=◌, follow, scanned, first_child,
}

pub data ServerStatus : Type 0 where
  server_stop server_initialize server_ready : ServerStatus

-- `contentsProcess_` is left out: the methods that use it take it as an argument.
pub record Server : Type 0 where
  pub ip : Text  -- char[16]
  pub port : ℤ
  pub worker_thread_count : ℤ
  pub status : ServerStatus

-- `strcpy_s (ip_, …)`: the text and its zero have to fit the 16 characters.
unfoldable pub copy_ip : Text → Uses Text
copy_ip t = if ltb (length t) 16 then gives t else invalid_parameter

module _ (xml : Xml) (scan : Scan) where
  open xml use {Element, get_text}

  -- The text of the child with this name, which is dereferenced.
  unfoldable pub text_of : Element → Text → Uses Text
  text_of e name = do c ← follow (first_child xml e name); follow (get_text c)

  -- With the section "Server" found.
  unfoldable pub read_server : Server → Element → Element → Uses Server
  unfolding text_of copy_ip
  read_server s app root = do
    ip ← text_of root (codes "IP")
    ip' ← copy_ip ip
    port ← text_of root (codes "Port")
    threads ← text_of root (codes "ThreadCount")
    name ← follow (first_child xml app (codes "Name"))
    gives (record {
      ip = ip';
      port = scanned (scan port) s.port;
      worker_thread_count = scanned (scan threads) s.worker_thread_count;
      status = server_initialize;
    })

  abbrev pub read_section : Server → Element → Option Element → Uses Server
  read_section s app none = gives s
  read_section s app (some root) = read_server s app root

  -- `Initialize`, but for the terminals and the tasks, which it starts first.
  unfoldable pub initialize : Server → Element → Uses Server
  unfolding read_server
  initialize s config = do
    app ← follow (first_child xml config (codes "App"))
    read_section s app (first_child xml app (codes "Server"))

-- The constructor: `config` is the document, `none` where `LoadConfig` fails; `s` is what the memory
-- held.
unfoldable pub make : (xml : Xml) → Scan → Server → Option xml.Element → Uses Server
unfolding initialize
make xml scan s none = gives (record s { status = server_stop })
make xml scan s (some config) = initialize xml scan (record s { status = server_stop }) config

-- `PutPackage`, with `none` for a null `contentsProcess_`; `put` is the method of the same name there.
unfoldable pub put_package {ℓ} :
    {Contents : Type 0} {Package : Type ℓ}
    → (Contents → Package → Contents)
    → Option Contents
    → Package
    → Uses Contents
put_package put contents package_ = do c ← follow contents; gives (put c package_)

-- The shutdown flag as it is first, and what the shutdown function writes to the log.
abbrev pub shutdown : Bool
shutdown = false

unfoldable pub shutdown_server : List Text
shutdown_server = codes "### server shutdown!!! ###" ∷ []

-- What the destructors do.
pub data Closing : Type 0 where
  closes_listen_socket : ℕ → Closing
  shuts_down : Closing  -- `ShutdownServer`, which writes to the log only
  frees_contents : ℕ → Closing

-- `~Server`: the status that it leaves, and what it does, in order; `contents` is `contentsProcess_`,
-- 0 for null.
unfoldable pub destroy_server : ℕ → Server → Server × List Closing
destroy_server contents s = (
  record s { status = server_stop },
  shuts_down ∷ (if contents == 0 then [] else frees_contents contents ∷ []),
)
