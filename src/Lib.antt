-- ===== src/Lib.antt =====
-- libm2handler: a C library for handlers behind the Mongrel2 web server.
--
-- Mongrel2 sends a handler each request of a browser in one ZeroMQ message. The library parses it
-- (src/handler.c), looks into its JSON headers and body, and sends replies. On top of that
-- src/websocket.c answers the opening handshake of RFC 6455 and wraps messages into frames, which
-- src/websocket_framing.c lays out; src/websocket_session.c keeps the table of open websocket
-- connections, over which `mongrel2_ws_broadcast` sends one message to all.
--
-- The files:
--   Base       native numbers, lists, C `int`s as `ℤ`, bytes and blocks of memory, byte order, bit
--              operations on bytes, decimal numerals, and `Outcome`: what a run of C code comes to
--              (a value, a failed assertion, undefined behaviour, a wait for ever, an exit).
--   Extern     what the library calls and does not own, as parameters with their documented laws:
--              bstrlib (src/bstr/), `sscanf`, jansson. A pointer that may be NULL is an `Option`.
--   Framing    src/websocket_framing.c. A frame is the list of its bytes. `mongrel2_ws_frame_x` is
--              `x`: Flags, Length, Payload, Mask and Create hold the functions; Layout, Fresh, Xor,
--              Fields, RoundTrip, Truncated and Network the theorems. The byte order of the machine
--              is an argument. Checks: test/framing.c.
--   Handler    src/handler.c. `mongrel2_x` is `x`: Request (the parser), Reply and Headers; Socket
--              (contexts, sockets and `recv` over a ZeroMQ that is a parameter); Netstring, Front,
--              Parse, Cut, Garbage and Life hold the theorems. PROTOCOL.markdown is its specification.
--   Session    src/websocket_session.c. `mongrel2_ws_sessions_state_x` is `x`. Session/Interfaces is
--              what it uses of Kazlib's dictionary (src/adt/) and of POSIX mutexes; Session/Laws the
--              theorems. Session/Threads: threads that share a table, as a step relation (Serial:
--              what they see, Progress: that they do not wait for ever). Checks: test/dict.c.
--   Websocket  src/websocket.c: Send (`mongrel2_ws_reply`), Wire (what RFC 6455 reads), Handshake
--              and Accept (the upgrade), Broadcast. Checks: test/ws_accept.c, test/ws_headers.c.
--   Debug      src/debug.c: `mongrel2_debug_bstring`; `mongrel2_ws_frame_debug` is in Framing/Debug.
--   Daemon     src/daemon.c.
--   Handlers   example/handlers/. SetUp and Shutdown: the opening and closing of sockets, and the
--              signal handler. Incoming: messages that wait. Upper, Null, Fifo: body_toupper.c and
--              daemon_to_upper.c, null_handler.c, fifo_reader.c. Sessions: the loop and the table
--              that ws_handshake.c and ws_variable.c share, with one theorem file each for its
--              branches (Laws, Message, Greeting), for what every round keeps (Invariant, Opened,
--              Pointing) and for its end (Stop); Handshake and Variable: the two programs, as a
--              `Style` of it. HandshakeCpp: ws_handshake.cpp, over Session. `x_main` is the `main`
--              of a program.
--              Whole runs are held against abstract machines: Sessions/Delivery says what the rounds
--              hear and runs a machine over it, and carries a simulation of one round to all;
--              Sessions/Book is the machine of the two C programs (who is known, how often each was
--              seen, who was looked up last), Visit, Answer and Run the simulation by the table and
--              `tempnode`, Books its two instances, with Books/Steady on the machine itself.
--              HandshakeCpp/Room is the machine of the C++ program, the set of its clients, and
--              HandshakeCpp/Run the simulation by the locked table.
--   Examples   concrete strings, scanner, ZeroMQ, table and mutex that fulfil the assumed laws, and
--              the theorems at concrete inputs.
--
-- State is passed explicitly: a function that writes through a pointer returns the new value. A
-- publishing socket is the list of the messages sent. Whether the `calloc` of a frame, a context, a
-- socket or a digest succeeds is an argument, `can_alloc`; those of a request, of a message and of
-- the keys and data of the tables are taken to succeed. An uninitialised variable is an argument,
-- `junk`. What is passed to a function as its memory, its strings, its sockets and so on is collected
-- in `World` for the websocket programs. A node of the dictionary that a pointer keeps is its key and
-- data; whether it is still there is looked up in the table. The calls on the session table are
-- `Code`, a list of steps, which `run` does in one go and `exec` one at a time.
--
-- Every loop is structural: the masking loop on the rounds left, the broadcast on the list of nodes.
-- The loops of the `main` functions, which need not end, run over a list of rounds and are cut off
-- behind it: `Rounds` and `Round` hold what a round meets (signals that arrive before it,
-- uninitialised variables, random numbers). The theorems hold for every list, so that no fuel has
-- to suffice. A signal is taken to arrive between two rounds.
--
-- Assertions are modelled as enabled, which they are in builds without NDEBUG (wscript, --debug);
-- such builds also run the frame dump. `ws_reply` and `broadcast` take as an argument, `dump`,
-- whether the build is one: without it they have neither the dump nor the assertions that can fail
-- (`create_in`, `assert_in`).
--
-- Not modelled: test/jansson.c, which is about jansson alone, the freeing of memory, the printing
-- but for `%s` of a pointer that may be NULL and for texts that are written to memory, and the
-- allocators that the dictionary is given. bstrlib, SHA-1, base64 and the dictionary are other
-- projects' code, and ZeroMQ, jansson, POSIX mutexes, `mkfifo`, `rand` and daemon(3) are the
-- system's.
pub mod Base
pub mod Extern
pub mod Framing
pub mod Handler
pub mod Session
pub mod Websocket
pub mod Debug
pub mod Daemon
pub mod Handlers
pub mod Examples
