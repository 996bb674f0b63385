-- ===== src/Lib.antt =====
-- The core of the chat server of ServerCore/: how sessions are accepted, kept, closed and timed out,
-- how packets are framed, sent and reassembled, and how jobs pass between threads.
--
-- The parts, and the files that model them (paths are from the repository's root):
--
--   Session.antt         ServerCore/ServerCore/Session.cpp and .h: the base class of a connection.
--   Network.antt         what the session code calls and the repository does not hold, as records:
--                        `PacketObfuscation` (in-place rewriting, so it keeps lengths; `Decodes` says
--                        that decoding undoes encoding), and `Winsock` (the results of WSARecv and
--                        WSASend). `PacketAnalyzer::Analyzer` is a function argument, and a `Packet *`
--                        in the server's model is a number.
--   Network/IoData       ServerCore/ServerCore/IOCPSession.cpp and .h, class IoData; its child SetData
--                        has the laws of SetData for every size of a stream.
--   Network/Frame        the bytes of one packet on the wire.
--   Network/IocpSession  IOCPSession.cpp, class IOCPSession. OnRecv: one completion. Reassembly: the
--                        completions of one packet; Windows puts the bytes where the last WSARecv has
--                        asked for them (the field `posted`). Sending: OnSend after OnSend.
--                        SendPacket: what goes out. Buffers: the size of the two arrays.
--   SessionManager.antt  SessionManager.cpp and .h, with Session::OnClose, the destructor of Session,
--                        and SessionMonitor::Tick. The sessions lie on a heap of pointers (Memory), and
--                        a double free or a use after free is a fault of the model. Close, Add,
--                        Lookup, Reaping (the monitor) and Teardown (the destructor) have the laws of
--                        the operations, Invariant what they keep. Changes is the relation of what
--                        a worker may do to the table and its sessions, and Frame what no step but
--                        AddSession does. Directory forgets pointers and order: the table as the
--                        map that GetSession shows. RunCommand splits a console line.
--   IocpServer.antt      ServerCore/ServerCore/IOCPServer.cpp: the server's threads. Accept has
--                        the branches that fail, Serve the one that succeeds, Worker the completions, Start
--                        Run, CreateListenSocket and AcceptThread. Ends and Sound take each handler
--                        through all that can come; Races has a session that one thread closes
--                        while another holds a completion for it, or a copy of the list. Workers
--                        has several workers between the calls of OnRecv and of PutPackage; its
--                        Agreement compares them with one completion after another, and Streams
--                        is about the packets of many clients.
--   ThreadJobQueue.antt  ServerCore/ServerCore/ThreadJobQueue.h. Fifo has the laws of each method,
--                        Refinement those of a run of calls.
--   Task.antt            ServerCore/ServerCore/Task.cpp and .h: periodic tasks and their manager.
--                        Lifetime has the constructor of the manager and the destructors.
--   Lock.antt            ServerCore/ServerCore/Lock.cpp, Thread.cpp and their headers: locks, threads
--                        and the search for deadlocks. Holders has the scopes of many threads, statement
--                        by statement.
--   TerminalSession.antt ServerCore/ServerCore/TerminalSession.cpp: the blocking connection to another
--                        server. OnRecv and SendPacket have the laws of these two methods.
--                        Connect makes the connection from the configured address.
--   Terminal.antt        ServerCore/ServerCore/Terminal.cpp: the thread that keeps that connection.
--                        Terminal/Manager: TerminalManager.cpp, the table of all terminals.
--   Peers.antt           IOCPSession.cpp and TerminalSession.cpp, the two ends of a connection between two
--                        servers: what one sends, the other gets.
--   Config.antt          ServerCore/ServerCore/Config.cpp, and what the readers of the configuration
--                        file use of TinyXML, as records: `Xml` (the first child with a name, the next sibling, name and text of an element)
--                        and `Scan`, the number that `sscanf_s` reads from a text.
--   Server.antt          ServerCore/ServerCore/Server.cpp and .h: the base class of the server, and
--                        Initialize, what its constructor reads from the configuration. It holds
--                        the flag and the function of ServerCore/ServerCore/Shutdown.cpp as well.
--   Logger.antt          ServerCore/ServerCore/Logger.cpp and .h: where log lines go, to the console or
--                        to a file. Lines: from the calls of the log to the text of the file.
--   Clock.antt           ServerCore/ServerCore/Clock.cpp and .h: ticks, dates and their texts. The C
--                        library is a record, `CLibrary`. Millis is about the milliseconds.
--   Util.antt            ServerCore/ServerCore/Util.h: ranges, overflow, conversions of strings, and the
--                        macros that give an object back.
--   Singleton.antt       ServerCore/ServerCore/Singleton.h: the one object of a class.
--   GameObject.antt      ServerCore/ServerCore/GameObject.h: names, virtual methods, the destructor.
--   Monitoring.antt      ServerCore/ServerCore/Monitoring.h: the use of processors and memory. A `double`
--                        is a record, `Double`, with the operations that the code has for it.
--   RandomMt.antt        ServerCore/ServerCore/RandomMt.h: random numbers; the engine is a parameter.
--   FileUtils.antt       ServerCore/ServerCore/FileUtils.cpp: reading a whole file; the translation
--                        of line ends by the stream is a parameter.
--   LowFragmentationHeap ServerCore/ServerCore/LowFragmentationHeap.h: the setting of the heaps.
--   Minidump.antt        ServerCore/ServerCore/Minidump.cpp and Assert.cpp: what follows a failure.
--   Examples.antt        runs on concrete data, and the theorems at concrete inputs.
--   Base.antt            shared names; lists, bytes in memory, machine integers, signed integers.
--
-- How they interact: IocpServer accepts a connection as an IocpSession on the heap of the
-- SessionManager, and its workers hand the completions to the session's OnSend and OnRecv;
-- SessionMonitor, a task of Task.cpp, closes silent sessions through the SessionManager. In
-- IocpServer, History lets these follow one another in any order, with bytes that Windows receives
-- (Receipts) in between, also with handlers between two sessions of the monitor's round
-- (Interleavings); Identifiers follows the identifiers of the sessions through that, Entries and
-- Directory the sessions that can be looked up, and Packets the bytes from the socket to PutPackage,
-- in Clients for many clients whose completions are mixed; Workers has many workers as well;
-- Task/Monitor is the round in which the monitor runs.
--
-- Conventions. A `size_t` and an `oid_t` are numbers modulo 2^64, an `int32_t` its bit pattern modulo
-- 2^32, and the counters of sessions, of type `int`, integers that are not bounded (`nodeCount` of
-- Task.cpp is). A `list`, a `vector` and a `std::queue` are the list of their elements. Time is the
-- reading of `CLOCK.SystemTick`, in seconds, that a call is given. A method that holds a lock
-- throughout is one step, and a handler of the server runs to its end before another one starts, but
-- for the monitor's loop, whose rounds are steps of their own, and in Workers for a worker that has a
-- package, which may put it later. A completion that a worker has taken is handled at any later time,
-- with other handlers in between; what happens inside of `OnRecv` in two workers at once is not
-- covered. A call of the log is one step as well, although nothing locks the log. Where C++ code would
-- read or write outside of an array, or free or use freed memory, the model stops with a fault or a
-- result of its own.
--
-- Fuel. `CloseSession` deletes a session whose destructor calls `CloseSession` again; the model bounds
-- the depth of these calls by fuel, and the theorems hold at every fuel from two on: the nested call
-- finds the session gone from the list. The search for deadlocks of Lock.cpp may go on for ever; on fuel
-- it ends with `out_of_fuel` there, and a chain is found with fuel for its length.
--
-- Not modelled: tinyxml and tinystr (copies of another project's library), the two main functions, which
-- do not start the server, and the getters and destructors that only return a field or free memory. The
-- table of operator commands of SessionManager.cpp is compiled out.
pub mod Base
pub mod ThreadJobQueue
pub mod Config
pub mod Clock
pub mod Logger
pub mod Util
pub mod Singleton
pub mod GameObject
pub mod Monitoring
pub mod RandomMt
pub mod FileUtils
pub mod LowFragmentationHeap
pub mod Minidump
pub mod Server
pub mod Session
pub mod Network
pub mod SessionManager
pub mod IocpServer
pub mod Task
pub mod Thread
pub mod Lock
pub mod TerminalSession
pub mod Terminal
pub mod Peers
pub mod Examples
