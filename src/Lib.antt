-- ===== src/Lib.antt =====
-- GDNP, the generic discovery and negotiation protocol: a client finds a server by a datagram and
-- negotiates an objective with it over TCP, in a session of the server.
--
-- The parts, and the files that model them. A message (msg.h, msg.cpp: Msg) carries an option
-- (Option.h, Option.cpp: GdnpOption) over a socket (BaseNegotiator.cpp: Pdu). The server's main
-- loop (Server.cpp, `run`: Server/Turn) answers a discovery itself, enters accepted connections in
-- its table (`clear_when_session_end`: Server/Descriptors) and hands what comes over TCP to a
-- session (`distribute`: Server/Sessions). A session (ServerSession.cpp: Session) takes messages
-- from its queue, whose items are compared as Content (common_structs.h) says, drops duplicates,
-- updates its state and answers (`run`: Session/Run); timer threads send WAIT_MSGs and end an idle
-- session (Session/Threads). A client (Client.cpp, Client_fsm_funcs.cpp: Client) asks, repeats its
-- request and stores the address that it is told (`discover`: Client/Discovery). Then it negotiates
-- or synchronizes over TCP (Client_TCP.cpp: Negotiation): `do_negotiate` takes one message of the
-- session (Negotiation), the reads between two messages are Negotiation/Course, and the functions
-- that start all this are Negotiation/Course/Start; Negotiation/Answered and Negotiation/Accepted
-- join a client with a session: in a synchronization, and in a negotiation that is accepted at once.
-- The server is constructed and started in Server/Setup;
-- Server/Life has the end of a session (the whole of `clear_when_session_end`) and lets the rounds
-- of `run` and the threads of the sessions take turns on the master. Sockets are set up in
-- Pdu/Sockets. Demo has the two programs that use all this (main_client_demo.cpp,
-- main_server_demo.cpp). Errno has the result codes of Errno.h, Base the helpers, Scenarios runs on
-- concrete inputs.
--
-- How the code is rendered. Functions keep their names in lower case, a state machine's `switch` is
-- a function by clauses, an object is a record that each operation takes and returns. An access
-- that C++ leaves undefined is a value of its own: `none`, `fault` of `Outcome`, `broken_off` of
-- `Handled`, or `undefined` of the client's `Run` and `Course`. Memory is a list of the bytes that
-- can be reached from a pointer (Base/Memory); machine words are natural numbers with their
-- wrap-around written out (Base/Bytes); the byte order is a parameter. An iteration of the
-- session's `run` is two functions, `begin` up to the call of the agent and `reply` after it, so
-- that Session/System can interleave them with the steps of the other threads: its `Step` is a
-- relation, and a step holds for a whole half iteration, one push, or one turn of a timer between
-- two sleeps. `Step` of Server/Life does the same for the master: a round of the main loop, a step
-- of a thread of one session, the end of a session, or a call of `listen_negotiate` by the program.
-- What the threads of a session keep for themselves goes from one of their steps to the next
-- (`Serving`). Beside the rounds as C++ defines them the relation has the delivery of a message
-- where the byte that `distribute` copies past its arrays does no harm; the rounds themselves deliver
-- nothing, since that copy is undefined.
--
-- What this leaves out of the interleavings. `send` and `set_state` of a session read `cur_state`
-- without the lock and act on it later, and `clear_when_session_end` takes no lock at all. In the
-- model a half iteration, a turn of a timer and the end of a session are atomic, so that it has
-- neither a WAIT_MSG that is sent after the NEGO_END_MSG because its thread read PROCESSING before,
-- nor a session that `set_state` revives after an end thread has ended it, nor a map that is changed
-- while the main loop is in it. What is stated over all reachable states holds where these races do
-- not happen.
--
-- Parameters, for what is not part of the repository: what `write`, `read`, `sendto`, `recvfrom`,
-- `select`, `accept`, `bind`, `listen`, `inet_pton` and `getifaddrs` answer (`Written`, `Reading`,
-- `Select`, `World`, `Converted`, `IfAddr`, and for the client the answers in a `Script` or a
-- `Talk`), the block that `malloc` returns and the rest of the stack behind a local array, the
-- random numbers, and the agent's callbacks (`Asa`). Descriptors are taken to be below FD_SETSIZE.
-- `clear_sessions` has a parameter for what follows the use of an erased iterator. A block of
-- `malloc` is the list of the bytes that can be reached in it. Both parsers of options ask for two
-- bytes (sizeof(len)) and copy the whole value there: what is promised is a list of two bytes, a
-- longer list is what an allocator may give beyond its promise, and where a value needs more than
-- the list has, the parser is undefined (`copy_value`). A statement either gives both outcomes
-- (`if_room`, or a test of the lengths) or names the room as its condition.
--
-- Termination. The table's loop runs on fuel, and one more than the number of sockets is enough.
-- The client's loops run on the script: they use one answer a round, and `pending` says that the
-- script was too short; six conversions of the address are enough to set a socket up.
--
-- Not modelled: the creation of threads beyond its success or failure, the closing of sockets by a
-- client, what `connect` answers (the code only prints it), `check_Addr` of Server.cpp, which is
-- not called, and the text that is printed.
mod Base
pub mod Content
pub mod Session
pub mod Client
pub mod Negotiation
pub mod Server
pub mod Demo
mod Scenarios
pub mod GdnpOption
pub mod Errno
pub mod Msg
pub mod Pdu
