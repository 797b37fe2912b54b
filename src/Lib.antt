-- ===== src/Lib.antt =====
-- Verification of the UDP server and client plug-in: a server that gives each peer a connected socket of
-- its own and echoes what the peer sends, over the KCP protocol or plain UDP, on Linux and on Windows.
--
-- The parts, with the code they model (paths from the repository's root):
--
--   Base      what all share: Boolean tests on the native numbers (Tests), lists measured by them (Lists),
--             maps as association lists (Assoc), computations that may fault (Outcome), and statements
--             about them: Returns and IfReturns (Hoare), Safe and Tame (Tame).
--   System    the operating system and the KCP library, as the records Os and Kcp of functions. An answer
--             may depend on every call before it, which the log holds, newest first; System.Calls pairs
--             each call with its entry. Build has the switches __LINUX__ and
--             USE_KCP_CONTROL_TRANSFORM and the rounds that loops are given.
--   Address   MakeUniqueID of wheel/src/wucomm.h, which names a peer by 32 bits.
--   Clock     itimeofday, iclock64 and iclock of wheel/src/wucomm.h; a long of Windows is its word of 32 bits.
--   Socket    how sockets are opened: NewSocket, SO_REUSEADDR, setnonblocking.
--   NetUnit   wheel/src/NetUnit.h: the socket that a unit owns and its destructor closes.
--   Buffer    writes into a buffer of bytes, and the bytes of a 32-bit number, least first.
--   Plug      wheel/src/KCPPlug.h: kcp_recv is KcpRecv, with the loops feed_socket, drain_block and
--             drain_socket; kcp_send, kcp_update, kcp_release and the others by their names. Messages
--             and Socket are about the ends of the loops, Gathering about what they leave in the buffer,
--             Silence about what the library is not given meanwhile.
--   Client    wheel/src/UDPClient.h and UDPClient.cpp: client_recv is Recv, client_send is Send,
--             check_kcp_plug with offer_conv and take_conv is CheckKcpPlug, on_recv_data is OnRecvData;
--             Connect has TryConnect, Members and Conversation what Recv may change,
--             Echo, Answering and Replies what it does with data.
--   Dispatch  wheel/src/NetDispatch.h and NetDispatch.cpp on epoll; Dispatch.Windows on a completion port.
--   Directory the abstract specification of the server: a function from identities to sessions, with the
--             steps in which it may change; no code, and no objects. Server.View says which directory a
--             state of the server stands for, and Server.Refines that the server goes the steps.
--   Server    wheel/src/UDPServer.h and UDPServer.cpp: attach_net_client in Server itself, NewNetClient,
--             OnRecvByAddr and Recv in Peers, TryListen, Update and Send in Run, the constructors and
--             destructors in Life; Rounds has the loop of wheel/test/test.cpp and Program its main. The
--             other children hold theorems: Sound has the invariant, ViewSteps and Changes the changes
--             of the map and the heap; Attach, Admit and Deliver follow a datagram, Apart and Isolation see
--             what it leaves of the other clients; Welcome is about the first datagram of a new peer,
--             Answers about a round in which one is heard, Session and Converse about those that follow,
--             Sockets about what becomes of the sockets, Piles about the reads of Windows, Listen about
--             TryListen, Updates about UpdateClient, Service, Reading and Attends about clients in service
--             and the rounds that attend to them, Joins about a new peer while others are in service,
--             Hosting and Hosts about rounds in which peers come and talk, Finishes about the end of main,
--             Inputs and Completions about the events, Loop and
--             Windows about a round on each system, with Turns for both and Posting, Pending and Reads
--             for the overlapped reads; Free is about the destructor and Whole about main.
--   Tests     concrete systems, and an example for each result.
--
-- How they interact: the server's loop (Update) lets every client's block run (UpdateClient), asks the
-- dispatcher for events and calls Recv of the units they name. The server's Recv finds the peer's client by
-- the peer's identity or makes one (NewNetClient), and hands it the datagram; a client's Recv first settles a
-- conversation with its peer (CheckKcpPlug), and from then on reads through the plug and echoes.
--
-- The state of the server is a World: the log, the heap of client objects, the next free address, the posted
-- operations of Windows and the members of the server. m_AllClients maps identities to addresses in the
-- heap; a use of an address without an object is the fault dead_pointer, a write past an array
-- out_of_bounds. m_buff is a list of 512 bytes.
--
-- Loops. The loops over sockets and messages run on fuel. Without KCP it is the room in the buffer, and
-- every round but the last takes a byte of it. With KCP it is a number of the build, which is enough where
-- it is larger than the number of datagrams and of messages that can wait (the record Quiet).
--
-- Named assumptions about the parameters: RecvFits, KcpRecvFits, WaitFits and Quiet. That epoll reports only
-- units that have their objects, and the completion port posted reads of such units, each once, is a
-- hypothesis of the theorems on rounds, for the call of each round (Awaits, Completes, Reports,
-- ReportsFrom; Attends and Follows where it reports only clients in service). What a block may be given to
-- send is a parameter, Kind. That calls succeed for a peer that is heard is one of those that say it is
-- answered (Works, Heard, Opens, Welcomes).
--
-- Not modelled: wheel/src/ikcp.c and ikcp.h, a copy of the upstream KCP library, whose calls are parameters;
-- wheel/src/NetEventNotify.h, empty methods that nothing uses; what printf and getnameinfo print; sleep.
-- `new` gives every object an address that was not used before. The order of an unordered_map is that of
-- insertion here, in which UpdateClient and FreeAllClient go through it.
pub mod Base
pub mod System
pub mod Address
pub mod Clock
pub mod Socket
pub mod NetUnit
pub mod Buffer
pub mod Plug
pub mod Client
pub mod Dispatch
pub mod Directory
pub mod Server
pub mod Tests
