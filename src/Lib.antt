-- ===== src/Lib.antt =====
-- The programs of the repository EmanueleMottola/DP1: the file server of lab3/es3 and the client of
-- lab3/es2 with the set-up of their sockets, the servers and the client of lab2/lab2.3 before them, the
-- sum server of lab1/test_server with its client, the square servers and clients of lab2/es4/xdr, two
-- small clients, and the functions of sockwrap.c and errlib.c that each program is linked with.
--
-- Parts
--  * Errlib: errlib.c. Message is how err_doit puts a message together, Output where the four functions
--    send it and how they end. The other parts only use that err_sys and err_quit end the process.
--  * Os: the machine. Os.Calls is the record of the calls that the programs make of the C library and
--    of the kernel, over a state that the programs do not see; Os.Io is the type of a C function that
--    makes calls: it returns, ends the process, leaves what C defines, or uses up its rounds. Neither
--    models code of the repository: they are the parameters of all the rest.
--    Os.Net is what the two sides of a connection can observe (the bytes still to come on a descriptor,
--    the bytes sent on it, the files, which keep what they hold when their descriptor is closed and
--    used again; Os.Net.Held has the laws of that); Os.Reliable are the promises of the manual pages
--    that theorems use: short reads and writes and any finite number of interruptions by signals are
--    allowed. Prompt and OnePiece are what some theorems ask of the peer besides: that it speaks within
--    the time limit, and that a message is not cut by the network.
--    Os.Loopback is a machine that keeps the promises, uses closed descriptors again, and on which
--    everything runs.
--  * Sockwrap: sockwrap.c. Wrap has the wrappers of one call, Exact the loops readn, writen and sendn,
--    Lines readline with my_read and readline_unbuffered, Setup the wrappers that set a socket up,
--    Datagrams those for datagrams, addresses and processes, Names the texts of addresses,
--    Listing the lines of Print_getaddrinfo_list and showAddr, Others the wrappers for names, options,
--    signals and <stdio.h>.
--    The file is copied into the folder of each program; lab3/es3/sockwrap.c is the one named.
--  * FileServer: lab3/es3/server.c. SendFile is send_file, Service is service and serve_client, Defs
--    is error_msg, fatal_error and the constants, Main starts the processes.
--  * FileClient: lab3/es2/client.c. Receive is receive_file, Commands is send_GET, send_cmdQUIT and
--    manage_error, Session the loop of main. Batch is lab2/lab2.3/source/client1/client1_main.c,
--    with the receive_file of that program. Mains has what the two main functions do with their
--    arguments.
--  * EarlyServer: lab2/lab2.3/source, server1_main.c and server2_main.c. Requests is the loop over the
--    requests of a client, Mains the two main functions with serve_client; send_file and error_msg are
--    those of FileServer. Os.Processes has fork and waitpid. First is lab2/es3/server.c, the server
--    before those two.
--  * Connection: lab3/es3/lib_server.c and lab3/es2/lib.c. The calls that they make are a record of
--    their own in Sockwrap.Setup.
--  * SumServer: lab1/test_server/server_test.c. The parent has prot_a, Decimal what it uses of sscanf
--    and snprintf, Xdr prot_x, over the streams of XDR as a parameter, Main the loop of main, and
--    Client its client lab2/es4/client4.c.
--  * UdpClient: lab2/es1/client1_4.c. ConnectClient: lab1/client1-2/client.c.
--  * Transfer: the client reads what the server has sent.
--  * Conversation: a file client and the file server on the two ends of a connection, over a list of
--    names. Serving is a turn of the server, Ending its last one. For the client of lab2.3, Asking is a
--    turn and Batch the whole; for that of lab3/es2, whose user types, Typed says what comes when,
--    Typing is two rounds and Session the whole. The state of the server steps while the client waits
--    in select, and the other way round.
--  * Square: the servers and clients of lab2/es4/xdr. Xdr has the XDR library and the code that rpcgen
--    makes as parameters, with what RFC 4506 says of them; Rfc is a codec that keeps it. Udp has the
--    datagrams and malloc. Simple is SquareServer.c of 1-SquareSimple, Sequences that of 2, 3 and 4,
--    Client the loops of SquareClient.c of 1 to 4, Mains what main does before its loop, Tcp the
--    folder 5-SquareSequencesTCP. Post is a machine on which they run.
--  * Base: tests, lists, integers, the bytes of a word of 32 bits, and what strncmp and sscanf do on a
--    string.
--
-- Correspondence
--    A buffer is the list of the bytes in it; where a function returns a number of bytes that were
--    read, the model returns the bytes. A static or automatic variable that is read before it was
--    stored, and a store past the end of an array, give the result undefined. uint32_t is kept modulo
--    2 ^ 32. The counter of send_file is an int: a sum past its range is undefined, and results of -1
--    that it adds are counted apart, so that all numbers stay natural. Functions that the source nests
--    in loops are helpers with a continuation: the argument again is the next round.
--    A datagram is its bytes, cut to the buffer, and its sender. A number of type hyper is an integer;
--    a product or a sum that its type does not hold gives the result undefined. Blocks of malloc are
--    numbers, of which only the servers that allocate say which are in use. What memory holds that was
--    allocated and not stored is a parameter. fork is a call that says which of the two processes goes
--    on.
--
-- Bounds and fuel
--    Loops of the source become recursion on rounds. The rounds of readn, writen and of the wrappers
--    that try again are called fuel: the number of bytes and of the interruptions still to come is
--    enough. The rounds of send_file and receive_file are called rounds: one more than the size of the
--    file is enough. A turn of prot_a is one line: one turn more than there are lines is enough. The
--    requests of a client and the clients of a server have no bound in the source; a run over any number
--    of them is a definition of its own. The UDP client of lab2/es1 has five tries, but answers do not
--    count as tries: one round more than there are datagrams and tries is enough.
--
-- Not modelled
--    What is printed, but for the messages of errlib.c, the lists of addresses of sockwrap.c and the
--    answers that the clients of Square, UdpClient and client4.c show; what getaddrinfo does with
--    names; the signal handlers; time; hstrerror, which is compiled on Solaris only. fork is modelled
--    by what each of the two processes does, not by both at once.
--    client1-3 of lab1, server1_4.c of lab2/es1 and client.c of lab2/es3, which do not compile;
--    client1-4 of lab1, which is empty.
pub mod Base
pub mod Os
pub mod Errlib
pub mod Sockwrap
pub mod FileServer
pub mod FileClient
pub mod SumServer
pub mod Connection
pub mod Conversation
pub mod EarlyServer
pub mod ConnectClient
pub mod UdpClient
pub mod Square
pub mod Transfer
