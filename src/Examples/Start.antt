-- ===== src/Examples/Start.antt =====
-- IOCPServer.cpp: the server's start, and connections that come in.
use iocp_chat_server.Base.{false, some, none}
use iocp_chat_server.Server.{server_initialize, server_ready}
use iocp_chat_server.IocpServer.Start.{Round}

abbrev early : Round
early = record {
  shutdown = false;
  accepted = some 70;
  status = server_initialize;
  status_after = server_initialize;
}

abbrev failing : Round
failing = record {
  shutdown = false;
  accepted = none;
  status = server_ready;
  status_after = server_ready;
}

-- A connection comes before the status is set: the two after it are not accepted.
