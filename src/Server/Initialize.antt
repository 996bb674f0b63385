-- ===== src/Server/Initialize.antt =====
-- Server.cpp, `Initialize`: which configurations make a server.
use iocp_chat_server.Base.{◌≡◌, refl, ◌<◌, Option, none, some, length, arith, inl, inr, ◌⊎◌}
use iocp_chat_server.Base.Text.{Text, codes}
use iocp_chat_server.Config.{Xml, Scan, gives, follow, scanned, first_child, >>=-eq-gives}
use iocp_chat_server.Server.{
  Server, server_stop, server_initialize, copy_ip, text_of, read_server, read_section, initialize,
  make,
}

copy_ip-fits : (ip ip' : Text) → copy_ip ip ≡ gives ip' → length ip' < 16
unfolding copy_ip
copy_ip-fits ip ip' e = ground arith

module _ (xml : Xml) (scan : Scan) (s : Server) where
  open xml use {Element, get_text}

  read_server-fits :
      (app root : Element) (t : Server)
      → read_server xml scan s app root ≡ gives t
      → (t.status ≡ server_initialize) × (length t.ip < 16)
  unfolding read_server
  read_server-fits app root t e =
      let a = >>=-eq-gives (text_of xml scan root (codes "IP")) _ e in
      let b = >>=-eq-gives (copy_ip a.0) _ a.2 in
      let c = >>=-eq-gives (text_of xml scan root (codes "Port")) _ b.2 in
      let d = >>=-eq-gives (text_of xml scan root (codes "ThreadCount")) _ c.2 in
      let f = >>=-eq-gives (follow (first_child xml app (codes "Name"))) _ d.2 in
      let made : record {
        ip = b.0;
        port = scanned (scan c.0) s.port;
        worker_thread_count = scanned (scan d.0) s.worker_thread_count;
        status = server_initialize;
      }
          ≡ t =
        cc (f.2) in
      rw (← made) (refl, copy_ip-fits a.0 b.0 b.1)

  section-cases :
      (app : Element) (root : Option Element) (t : Server)
      → read_section xml scan s app root ≡ gives t
      → (t ≡ s) ⊎ ((t.status ≡ server_initialize) × (length t.ip < 16))
  section-cases app none t e = inl (cc)
  section-cases app (some root) t e = inr (read_server-fits app root t e)

-- Whatever the configuration says, a constructor that returns leaves either SERVER_STOP and nothing
-- read, or SERVER_INITIALZE and an address that fits its array.
pub make_lem :
    (xml : Xml) (scan : Scan) (s : Server) (config : Option xml.Element) (t : Server)
    → make xml scan s config ≡ gives t
    → (t ≡ record s { status = server_stop })
      ⊎ ((t.status ≡ server_initialize) × (length t.ip < 16))
unfolding make initialize
make_lem xml scan s none t e = inl (cc)
make_lem xml scan s (some config) t e =
    let s' = record s { status = server_stop } in
    let a = >>=-eq-gives (follow (first_child xml config (codes "App"))) _ e in
    section-cases xml scan s' a.0 (first_child xml a.0 (codes "Server")) t a.2
