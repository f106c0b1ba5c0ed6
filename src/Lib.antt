-- ===== src/Lib.antt =====
-- timps is a transparent proxy for OSCAR, the protocol of an instant messenger. It stands between
-- clients and servers, reads and rewrites their messages, and delivers messages between its own users
-- by itself. It has three layers: naf, a framework for networked daemons (naf/), gnr, which keeps the
-- users that are online and routes messages between them (gnr/), and the proxy itself (timps/oscar/).
-- This library models the parts that decide what is read, written and remembered.
--
-- Prelude and its children hold the shared helpers: tests, lists over the native numbers, blocks of
-- memory, integers. Fixture has an allocator for the examples. Each Runs file has runs of its component
-- at concrete inputs.
--
--   Bytes         include/naf/nafbufutils.h: naf_byte_put8 to naf_byte_get32.
--   Sbuf          naf/sbuf.c: naf_sbuf_t as the record Sbuf, one function for each naf_sbuf_ function,
--                 those on strings in Sbuf/Strings.
--   Tlv           naf/tlv.c: a naf_tlv_t list as a list of records, its parser and renderer, and in
--                 Tlv/Build the functions that build nodes. They read and write through Sbuf.
--   Ckcache       timps/oscar/ckcache.c: the list of cookies that a login hands to the next connection.
--   Flmp          naf/memory.c: the pools of blocks of one length, naf_flmp_alloc, naf_flmp_blkalloc and
--                 naf_flmp_blkfree, and in Flmp/Client what their users may think of them.
--   Malloc        naf/memory.c: naf_malloc_real and naf_free_real over libc's malloc, with the counters of
--                 each module; the other models take them as the parameter `malloc`.
--   Gnr           gnr/node.c: Gnr/Name has gnr_node_namecmp and the hash, Gnr/Node the table, its
--                 statistics and its walks, Gnr/Node/Edit what makes a node or changes one. Gnr/Msg has
--                 the handlers of gnr/msg.c and the routing of a message through them, over the nodes
--                 and the tags of modules, Gnr/Msg/Hits the handler of node.c among them,
--                 Gnr/Msg/Register the output functions and the tags of a message (with two functions
--                 of naf/module.c), and Gnr/Event the event handlers of gnr/core.c.
--   Tags          naf/tags.c: the tags of connections and nodes.
--   Conn          naf/conn.c: the open connections and their endpoints and parents, naf_conn_addconn,
--                 naf_conn_startconnect and naf_conn_free with what it frees in turn. Conn/Steps has
--                 sequences of these.
--   Cache         naf/cache.c: the lists of pairs that modules keep, their timeouts and how they are freed.
--   Rpc           naf/rpc.c: arguments, requests and methods, in Rpc/Help the method that lists them.
--   Oscar         timps/oscar/: Flap has the frames of flap.c over naf_conn_reqwrite of naf/conn.c, Snac
--                 the messages of snac.c inside the frames, Userinfo what they say of users, over Sbuf
--                 and Tlv, Sncmp the comparison of names of oscar.c, Im the text of the messages of
--                 im.c, Im/Channel the nodes of a message on channel 1, Im/Handlers the two handlers
--                 that read a message and route it over Gnr/Node and Gnr/Msg, and Im/Senders the
--                 two functions that write one, over Tlv, Userinfo and the tags of a message.
--
-- Sizes are those of a 32-bit machine: naf_u32_t has 32 bits, and the structures have the sizes that
-- their fields have there. Numbers wrap as the source's types do, written out. A pointer to a buffer is
-- the list of the bytes from there to the end of its block, and the result `none` of a step that reads
-- or writes memory stands for undefined behaviour, a read or write outside a block. Where a component
-- links nodes by pointers, a node is known by an `id`, its address, and a pointer that dangles is such a
-- fault too.
--
-- A pointer to a module is an optional number where the code tests it for null or stores it: a null one
-- has no node appended and no tag added, and where a theorem needs a module it says so. In Ckcache and
-- Conn the module is not null, as the comments there say.
--
-- naf_malloc is the parameter `malloc`: the block for a request of that many bytes, or none. What is
-- relied on is named: IsMalloc, a block has the size asked for, and Grants, every request is granted.
-- What the message handlers and output functions of modules do is the parameters `handle` and `output`,
-- on a world of their own; no property relies on anything about them. The address that mmap returns is
-- the parameter `region`. libnbio's nbio_addtxvector is the parameter `addtx`, whether it takes a buffer;
-- nbio_addfd is `addfd`, which is relied on to put a descriptor somewhere into the list (IsAddfd), and a
-- descriptor that is closed during a walk over the list is passed over, as the source's own test for it
-- says. A module's takeconn is relied on to keep a connection's address and parent (IsTakeconn).
--
-- Loops over a list are recursion on the list. Six loops run on fuel. The one of naf_sbuf__extendbuf has
-- one more than the bytes asked for, which Sbuf/Grow shows to be enough. The one of naf_tlv_parse_limit
-- has its own outcome `running` for fuel that ran out: fuel of one for each node is enough, and with a
-- limit the limit is; without one there are inputs for which no fuel is enough. The scan of
-- naf_sbuf_getcstr has one more than the length of the buffer. toscar_sncmp takes its own fuel, and for
-- names without spaces more than the length of the first name is enough.
-- toscar_icbm__extractmsgtext has an outcome `running` too; fuel of the length of its node is
-- enough. naf_conn_free calls itself through the links between connections: fuel of the number of open
-- connections is enough.
--
-- Not modelled: freeing, debug output, and the event handlers of other modules; the RPC methods of
-- modules other than rpc, tag wrappers and registration in gnr/node.c; the socket side of naf/conn.c;
-- the handler of channel 1 in flap.c and those of login in snac.c; sockets, modules, configuration,
-- logging and start-up; libmx.
pub mod Prelude
pub mod Bytes
pub mod Sbuf
pub mod Tlv
pub mod Fixture
pub mod Ckcache
pub mod Gnr
pub mod Tags
pub mod Oscar
pub mod Flmp
pub mod Malloc
pub mod Conn
pub mod Cache
pub mod Rpc
