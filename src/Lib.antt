-- ===== src/Lib.antt =====
-- A model of seven programs of this repository, with the theorems that make them correct: the gate
-- service for skynet (skynet_test/skynet/mytest/gate), the watchdog that starts it
-- (skynet_test/skynet/mytest/service_test/cpp), a doubly linked list (redis3.0_learn/adlist), a
-- search tree (tree), a MySQL client (mysql_api_test), a server (epoll_test) and a log
-- module for Lua (lua_test/testglog).
--
-- The gate passes bytes between sockets and services. Its parts, and the files that model them:
--   HashId      hashid.h: the table from socket ids to connection slots, nodes in an array, chained
--               by index from a hash array. hashid_init, _clear, _lookup, _remove, _insert and _full
--               are `init`, `clear`, `lookup`, `remove`, `insert` and `full`.
--   DataBuffer  databuffer.h: the received bytes of a connection as a list of messages that come from
--               a pool all connections share. Functions keep their names.
--   CText       the C library's text functions that the programs call.
--   Gate        service_gate.c: its state, _forward (`forward`) and dispatch_message, whose loop is
--               `dispatch_loop`. Gate/Control: _parm, _forward_agent, start_listen and _ctrl, one
--               function for each command. Gate/Socket: _report and dispatch_socket_message, one
--               function for each type. Gate/Service: gate_create, gate_init, _cb, gate_release.
-- _cb gives a text to `ctrl`, a client's message to `on_client` and a socket's to
-- `dispatch_socket_message`; the last looks the socket up in the table, whose slot is the index of
-- the connection, and hands its bytes to the connection's buffer.
--   Watchdog    Watchdog.cpp and service_watchdog.cpp: watchdog_init writes the text that `gate_init`
--               reads, and watchdog_poll reads what `forward` and `report` send. CText/Decimal is
--               about numbers that are printed and read again.
--   AdList      adlist.c and adlist.h: nodes on a heap with addresses, a list as its two ends.
--   SearchTree  searchTree.h and searchTree.cpp: nodes on a heap as well; the object is its heap, its
--               root and its count. SearchTree/Neighbour: treeSuccessor and treePreDecessor.
--               SearchTree/Addition: insertNode and insert. SearchTree/Deletion: deleteNode.
--   Mysql       MysqlClient.h and MysqlClient.cpp: MysqlResult, MysqlRow, fetch_row, get_string and
--               get_int. Mysql/Session: MysqlClient with its connection. What the client library
--               answers is a parameter (`Library`), which may depend on all calls made before; the
--               calls are kept in a list.
--   Epoll       server.cpp: `set_up` is main up to its loop, `serve` the loop, `on_event` its body.
--               What the kernel answers is a parameter (`Kernel`), in the manner of `Library`.
--   Log         log.cpp: format_message, whose loop is `grow`, and `lerror`.
-- The specifications: Gate/Stream tells dispatch_message on bytes alone (`drain`), Gate/Packets
-- is the format of a peer's packets, the Invariant modules and AdList/Chain say what pointers
-- must make. Gate/Refinement and Gate/Dispatch lead to Gate/Delivery; Gate/Chunks, Gate/Fuel,
-- Gate/Pieces and Gate/Step lead with it to Gate/Feed. Gate/Sessions, Gate/Stuck, Gate/Unread,
-- Gate/Relisten and Gate/Connecting are about single messages, Gate/Released about
-- gate_release. Gate/Whole is the invariant of the whole gate: the table, the connections, and
-- the buffers that share one pool; Gate/Handled, Gate/Commands and Gate/Texts lead to
-- Gate/Served, which follows the gate from gate_init on, and Gate/Alone, Gate/Interleaved and
-- Gate/Merged to the data of several connections. AdList/Copy is listDup; AdList/Segment,
-- AdList/Link and AdList/Ends carry the theorems on adlist.c. SearchTree/Shape is the tree that
-- the pointers make; SearchTree/Context is what is around one of its subtrees, and leads by
-- SearchTree/Transplant and SearchTree/Replace to SearchTree/Deleted and SearchTree/Order, and
-- with SearchTree/Inorder to SearchTree/Beside. AdList/Iteration and AdList/Purge are about
-- iterators, AdList/Access is the macros of adlist.h. Mysql/Handles replays the calls that a
-- client has made; Mysql/Requests, Mysql/Identity and Mysql/Lifetime follow a client with it,
-- Mysql/Recovery and Mysql/InsertId a client whose server is up again. Epoll/Line and
-- Epoll/Rounds are about the array of the server. Examples holds runs at fixed inputs.
--
-- An int is its 32-bit pattern, from 2 ^ 31 on negative; a pointer is an optional address. What
-- C leaves undefined, an access outside an array, through NULL or past a failed assert, is
-- `fault`; but a header's first byte is shifted into the sign, as GCC does it. A loop that is
-- not structural takes fuel, and `out_of_fuel` is a result of its own: the walks along a chain
-- or down a tree take a round for each node, the doubling in hashid_init 32, the loops over a
-- buffer a round for each cell of the pool, the loop of dispatch_message two rounds for each
-- byte, the doubling in format_message 22. The theorems below give results, so the fuel is
-- enough where they apply. What skynet returns to one message is a parameter (`Skynet`), and so
-- is malloc; what the service asks of skynet is a list of actions.
--
-- Not modelled: log lines, the 1024 bytes that _report has for a line, freeing of the memory
-- that skynet_malloc gave except for the pool's blocks, the memory of an iterator with
-- listReleaseIterator, and the macros of adlist.h that return a method; get_int64 and
-- get_double, which convert what get_string gives; setnonblocking of epoll_test/server.cpp,
-- which nothing calls. The rest of the repository's C is left aside: redis3.0_learn/dict is
-- unfinished, libevent_test/tailqueueTest/tailqueue.h copies BSD's macros, sgi_stl_learn copies
-- parts of the SGI STL, epoll_test/client.cpp, socket_test and shm_test are calls of the
-- system, and the rest of lua_test and skynet_test/testcluster are calls of libraries.
pub mod Prelude
pub mod HashId
pub mod DataBuffer
pub mod CText
pub mod Gate
pub mod AdList
pub mod SearchTree
pub mod Mysql
pub mod Watchdog
pub mod Epoll
pub mod Log
pub mod Examples
