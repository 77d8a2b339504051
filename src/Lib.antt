-- ===== src/Lib.antt =====
-- An SMTP server in C with its supervision service. One process serves all connections: a
-- selector over pselect(2) delivers the events of descriptors, each connection of a client
-- runs a state machine, and the states read command lines and mail texts through byte buffers
-- and two byte-at-a-time parsers. A mail is a file for each recipient. A second socket answers
-- datagrams of administrators about the counters of the server.
--
-- The parts and their files:
--   Base (Base.antt, Base/): shared names. Base/Fault is the result type: `err` carries what
--     ends the process or what C leaves undefined (a failed assert, a call of abort or exit,
--     an access outside an array) and `out_of_fuel` for a loop given too few rounds. Base/Post
--     is what holds of a result whenever there is one, Base/Ends how a computation ends on
--     every branch. Base/Text is C strings in arrays, Base/Case their comparison in any case,
--     Base/Decimal numbers as text, Base/Int the signed numbers, Base/Lists and Base/Options
--     the lemmas on lists and optional values.
--   Buffer (src/buffer.c, include/buffer.h): struct buffer is the record Buffer; a pointer is
--     its offset from `data`, and the memory behind `data` is a list of bytes. Each function
--     buffer_x is Buffer.x. Buffer/Valid holds the invariant, Buffer/Queue the queue that a
--     buffer implements.
--   Request (src/request.c, include/request.h): request_parser_feed is Request/Feed, one
--     function for each group of states of its switch; request_consume, request_is_done and
--     request_close are Request/Consume. Request/Line describes command lines with no
--     reference to the automaton, Request/Size is about the array arg.
--   Data (src/data.c, include/data.h): data_parser_feed is Data.feed_in, data_consume is
--     Data.consume; Data/Pointers is where it leaves the pointers of its buffers.
--   Stm (src/stm.c, include/stm.h): stm_init, stm_handler_read, stm_handler_write,
--     stm_handler_block, stm_handler_close and stm_state over a table of rows. The functions
--     are generic in what the callbacks see and change; a null callback is `none`.
--   RcptList (src/rcpt_to_list.c, include/rcpt_to_list.h): the list of recipients with the
--     array `email` of each node. RcptList/Files has create_mails_files, write_to_files and
--     close_fds over RcptList/Disk, a model of directories, files and descriptors; a node with
--     its descriptor and file name is a FileNode. RcptList/Dirs, Contents, Closing and
--     Delivery follow the file of one recipient, RcptList/Slash an address with a slash.
--   Selector (src/selector.c, include/selector.h): selector_new, selector_register,
--     selector_set_interest, selector_set_interest_key and selector_unregister_fd over struct
--     fdselector, whose table is a list with `none` in a place that is not in use.
--     Selector/Valid has the invariant of the table. Selector/Select has handle_iteration,
--     handle_block_notifications, selector_notify_block, selector_select and selector_destroy,
--     Selector/System the functions that only call the system.
--   Smtp (src/smtpnio.c, include/smtpnio.h): Smtp has enum smtp_state, struct smtp (Session),
--     the static variables (Server) and the accessors; Smtp/Io has write_status, read_status
--     and the parts that the handlers share; Smtp/Process the functions x_read_process, whose
--     answer to a complete command is x_body; Smtp/Handlers the handlers and the table
--     client_statbl; Smtp/Connection has smtp_passive_accept, smtp_read, smtp_write,
--     smtp_done, smtp_close and smtp_destroy. Smtp/Flow has the order of the states, the
--     connections that can be reached, in Sends what the events of an answer send, and in
--     Protocol what holds of every connection that can be reached. Smtp/Text has the text of a
--     mail that comes in pieces: Event one event of mail_info_read, Mail the events up to the
--     end of the text, Delivered the calls on files that they make, made on the disk of
--     RcptList/Disk. Smtp/Total has how an event ends: what a session needs for its next
--     event, the causes that can make an event fault, and one module each for the parts of the
--     handlers, the answers, the handlers and the turn of the state machine.
--   Udp (src/udpserver.c, include/udpserver.h): Udp has the table of clients and
--     handle_authentication, Udp/Commands the commands and their answers, Udp/Handler
--     udp_read_handler over the clients, the variables of the server and the datagrams sent;
--     Udp/Words is uint64_to_big_endian. Udp/Login describes the login of one client as an
--     automaton.
--   Parser (src/parser.c, include/parser.h, src/parser_utils.c, include/parser_utils.h): the
--     engine for tables of transitions, and in Parser/Strcmpi the table that compares text
--     with a word.
--   Args (src/args.c, include/args.h): port, pass and parse_args over the options that
--     getopt_long(3) finds.
--   Netutils (src/netutils.c): sock_blocking_write, sock_blocking_copy and, in Netutils/Human,
--     sockaddr_to_human.
--   Main (src/main.c): main behind parse_args, as a function of what the system answers.
--
-- How the parts interact: smtp_passive_accept makes a session with its machine and its
-- buffers. The selector calls smtp_read or smtp_write, which call the machine's handler; the
-- row of the current state gives the callback, read_status fills the read buffer and runs a
-- process, the process feeds a parser from that buffer, writes the answer to the write buffer
-- and changes the interest of the descriptor to writing; write_status empties the write buffer
-- and changes the interest back to reading. The state that a callback returns is the one that
-- the machine jumps to, with its departure and arrival callbacks. udp_read_handler reads and
-- sets the same variables of the server as the sessions. main registers the two sockets in the
-- selector.
--
-- A handler sees a World: the session, the variables of the server, the interest in its
-- descriptor, the bytes sent so far, the calls on files so far, and an Env with the answers of
-- the system: what recv returns and stores, what send returns, whether the selector accepts an
-- interest, whether malloc succeeds, whether a call on files returns. Between two events of a
-- connection both the Env and the variables of the server may be any others, since other
-- sessions run. The functions of rcpt_to_list.c on files are entries of the list of calls; one
-- that does not return, by abort or by the signal for a pipe that nobody reads, ends the event
-- with `err aborted`. A descriptor, a return code of accept and the counters are signed
-- numbers without bounds; bytes are numbers that the code only compares and stores. The index
-- `i` of the request parser wraps at 256.
--
-- The callbacks of the selector may change the selector itself: handle_close is a field of a
-- handler, and the other fields are given by a function of the handler. The pointer to an item
-- that handle_iteration keeps over a callback is void when the table has been moved. The files
-- of RcptList are found by the text of their path, so that the theorems on them ask that an
-- address, or its part in front of a slash, is a name: not empty, neither `.` nor `..`,
-- without a slash. The program of a transformation is another process: the model has what the
-- server itself does, which writes to the pipe and closes it without waiting, and `prints`,
-- the output of the program to the file. Whether it is executed and reads all its input is an
-- answer of the system; one that does not makes write_to_files end the process. In main, what
-- a turn of the selector leaves of the table is an answer of the system. recvfrom, send,
-- inet_ntop, uuid_generate, strftime and getopt_long are arguments.
--
-- Fuel: request_consume and data_consume read one byte of the buffer in each round, so they
-- run on as many rounds as the buffer has bytes. next_capacity halves a number until it is
-- zero and runs on as many rounds as the number. sock_blocking_write sends a byte at least in
-- each round or ends, so one round more than there are bytes is enough, and in
-- sock_blocking_copy one for each byte of a chunk. printf of a number runs on as many rounds
-- as the number. All other loops are recursions on a list or on a number that the source
-- fixes.
--
-- Not modelled: what the program of a transformation writes while the calls on files still
-- run, and the ends of pipes that the programs of further recipients inherit; the mutex and
-- the thread of a blocking job of src/selector.c; the timeouts of pselect(2); the address of a
-- client of the SMTP service, which nothing reads; the field file_buffer of a session, which
-- nothing uses; messages on standard output and standard error; the tests under test/. The
-- calls of a session on files are recorded; those of a mail for one recipient are made on the
-- model of the files in Smtp/Text/Delivered, those for several recipients are not.
pub mod Base
pub mod Buffer
pub mod Request
pub mod Data
pub mod Stm
pub mod RcptList
pub mod Smtp
pub mod Selector
pub mod Udp
pub mod Parser
pub mod Args
pub mod Netutils
pub mod Main
