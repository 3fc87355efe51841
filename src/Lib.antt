-- ===== src/Lib.antt =====
-- A chat server and its terminal client. The server accepts a connection per user, reads requests as
-- JSON lines, keeps the users who are logged in and delivers their messages; the client buffers what
-- it receives and sends in conversations that its screen shows.
--
-- Prelude: numbers and their Boolean tests, 64-bit words, lists, strings as lists of bytes, and ordered
-- maps with the laws of their updates. Words wrap by add64 and sub64, which are taken modulo 2 ^ 64.
--
-- Json: the interface of nlohmann::json, a library that is not in the repository, and the field readers
-- over it. The definitions that read JSON take it as a parameter. Writer is the values that the program
-- builds, and Wire what one side reads of a value that the other side wrote, by the documented behaviour
-- of dump and parse.
--
-- Buffer: MessageBuffer (clientf/message_buffer.cpp and .h). Key is ConversationKey with its
-- operators, State the members and the helpers, Envelope and Receive are receiveValidated and
-- ensureConversation, Outgoing is reserveOutgoing, commitOutgoing and cancelOutgoing, View is snapshot
-- and markViewed. Calls makes the calls a sequence: each method holds the mutex to its end, so threads
-- that share a buffer run such a sequence. Failures of allocation are not modelled. An exception that a
-- method throws itself, on a missing conversation or an exhausted version, is an outcome.
--
-- Session/Frames: ClientSession::readFrame (serverf/client_session.cpp). The socket is a list of
-- arrivals, one for each call of read_some, and the loop is recursion on that list; where it ends the
-- call blocks. No fuel is used.
--
-- Session/Registry: the flags of ClientSession and the map of SessionRegistry
-- (serverf/session_registry.cpp). A session is named by a number in place of its shared pointer.
-- Whether a message can be encoded and whether the socket takes it are parameters of send_json.
--
-- Session/Handlers: the handler threads (server.cpp, authenticate from setAuthenticatedUsername on, and
-- cleanupSession) as a step relation. A step is one call that holds the registry's mutex or sets an
-- atomic flag, with what its handler does by its answer; the steps of all handlers, of deliveries and of
-- the shutdown interleave freely. In cleanup_session the calls of one handler are taken together, and
-- the removal from HandlerTracker is left out. The requests after admission stand for the calls of the
-- registry and of the sessions that they make.
--
-- Screen: the text functions of clientf/terminal_screen.cpp. Utf8 is decodeCodePoint, validUtf8 and the
-- escapes, Units is units, safeText, displayWidth, clipToWidth and wrapToWidth. The columns of a code
-- point come from the platform and are a parameter. The loop over a text is recursion on its bytes that
-- skips what a code point has used; the loop of hexCodePoint has fuel for eight digits, which is what a
-- 32-bit value has.
--
-- Input: InputField of clientf/terminal_ui.cpp. Field is its methods, with previousBoundary and
-- nextBoundary as recursion on the cursor and on the bytes after it; Edits is what a sequence of edits
-- keeps, and Typed is a character that is typed and erased.
--
-- Routing: serverf/durable_routing.cpp. Messages is deliveryEnvelope with the classes of database.h that
-- carry messages, Page is writePage, Requests reads requests, Deliveries writes responses and delivers
-- committed messages, and Handlers is handleDurableRequest. The calls of the database are an interface,
-- Database, over tables; a call returns or throws. Whether a socket takes a value is a parameter, and the
-- values that were taken are kept in order. Prefix, Narrowing, Recipients, Delivered and Acceptance are
-- about a page and about the deliveries.
--
-- Discovery: serverf/discovery_protocol.cpp. Results is what the database answers, Page the pages and
-- their loop, Handlers and Search the handlers, and Prefix what a page holds.
--
-- Service: server.cpp, the requests of an admitted session. Groups is the requests of groups and Requests
-- is readJsonRequest and processMessages, by recursion on turns: what readFrame gives and what other
-- threads do before it. isWhitespaceOnly is taken in the locale "C". Changes is what a durable
-- request may do to the sessions and the registry, write by write; Steps, Durable and Routed connect
-- the durable requests with these changes, and the changes with the interleaving of the handlers.
--
-- Client: ClientConnection (clientf/client_connection.cpp and .h). Fields, Envelope and Discovery are the
-- validators of what the server sends, State is the members with login and stop, Requests is what the
-- client sends by itself, Pending is processDeliveryMessage and processPendingPage, Dispatch is
-- dispatchFrame and Receive is receiveLoop, by recursion on what readFrame gives. The callbacks and the
-- values that the socket took are kept as events, in one log. What other threads do while the receiver
-- calls the frame handler, waits or reads is a list of acts that depends on the state: each act is a
-- whole method, except that another thread may stop the connection between the test and the write of
-- sendJson. A frame handler that throws is a parameter, and takes the catch block of receiveLoop; failures
-- of allocation, which reach the same block, are left out. The bytes on the socket and the thread itself
-- are left out. Steps is a step relation that every method is a sequence of, by Runs, Loop and Receiver,
-- Invariant and Once what its steps keep.
--
-- Agreement: the server's and the client's models together. Envelope and History are what the client
-- accepts of the server's envelopes and pages, Pending and Synchronization one round of the
-- synchronization of pending messages, Requests and Handled what the server does with the client's own
-- requests, and Entries, Discovery and Listings the pages of discovery.
--
-- Not modelled: the check of credentials, the
-- database (SQL that SQLite runs), readFrame of the client, user.cpp and the rest of the client's
-- interface. Sockets, threads and the terminal are input and output.
pub mod Prelude
pub mod Json
pub mod Buffer
pub mod Session
pub mod Routing
pub mod Client
pub mod Agreement
pub mod Screen
pub mod Input
pub mod Tests
pub mod Discovery
pub mod Service
