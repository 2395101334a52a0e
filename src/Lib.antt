-- ===== src/Lib.antt =====
-- DSR-UU: Dynamic Source Routing for Linux and ns-2, its packet handling and its tables.
--
-- A node keeps a link cache (link-cache.c), a table of route requests (dsr-rreq.c), a table of
-- neighbours (neigh.c), a send buffer (send-buf.c), a maintenance buffer (maint-buf.c) and a table of
-- gratuitous replies (dsr-rrep.c). All of them stand on the bounded tables of tbl.h. A packet that
-- arrives is handed to `dsr_recv` (dsr-io.c), which has its options read one by one (dsr-opt.c); the
-- handler of each option (dsr-srt.c, dsr-rreq.c, dsr-rrep.c, dsr-rerr.c, dsr-ack.c) changes the
-- tables and names what is to be done with the packet.
--
-- The files, by the part of the program that they model:
--   Base (and Base/) shared names, lists by native numbers, Boolean tests, integers;
--   Tbl: tbl.h; a table is the list of its elements, with the counter `len` kept beside it;
--   Timer: timer.h; Conf: the configuration in dsr.h;
--   Srt: dsr-srt.c and dsr-srt.h, source routes and their option;
--   LinkCache: link-cache.c, the graph and its shortest-path search;
--   Rreq: dsr-rreq.c, the table of route requests and route discovery; Rreq/Request: the packet that
--   carries a request;
--   Neigh: neigh.c, the table of neighbours and the round-trip times;
--   Pkt: dsr-pkt.h, a packet and its options; Send: the functions of dsr-srt.c,
--   dsr-rerr.c and dsr-ack.c that put options into packets or make packets to send;
--   SendBuf: send-buf.c, the packets that wait for a route;
--   MaintBuf: maint-buf.c, the packets whose receipt is not confirmed;
--   Rrep: dsr-rrep.c, the table of gratuitous replies; Rrep/Reply: the packet that carries a reply;
--   Node: the tables and buffers of a node together, and what the handlers share;
--   Recv: dsr-io.c and dsr-opt.c, what is done with a packet that arrives, with the handlers of options
--   in Recv/Routes (dsr-srt.c), Recv/Requests (dsr-rreq.c), Recv/Replies (dsr-rrep.c) and Recv/Errors
--   (dsr-rerr.c and dsr-ack.c);
--   StartXmit: dsr-io.c, what is done with a packet of the node's own;
--   Life: the tables as dsr-module.c sets them up, and the calls that the kernel makes after that:
--   packets that come in, packets of the node's own, and the timers;
--   Opt: dsr-opt.c, the walk over the options of a packet, by bytes.
--
-- Conventions. A function of the source is the function of the same name, less its leading
-- underscores, that takes the state and returns the new one with the result. An address is the number
-- in `s_addr`. `unsigned int` has 32 bits and `unsigned long` has 64, and both wrap where the source
-- may overflow. `kmalloc` is an argument: whether it gives a block, and what stands in one that the
-- source does not clear. The time is an argument. What is sent or set outside of the tables is
-- returned as a list of actions in order. Locks are left out: each operation runs alone. A numeric
-- error code is `none`, or the number where the callers tell codes apart.
--
-- Loops. A walk over a list is a recursion on the list. The `while` loop of `__dijkstra` is given as
-- many rounds as the cache has nodes, since each round settles one; the walk back over the
-- predecessors is given one more than the hops of the destination. The loops over the packets for one
-- destination or next hop are given as many rounds as the buffer has packets. The two functions of the
-- timer of the maintenance buffer call each other; each call takes one round of fuel, and an entry may
-- last as many rounds as it has tries left, and one more. That this is enough is part of the theorems.
--
-- The handlers of a route error and of an acknowledgement give it one more round than the entries may
-- last.
--
-- Where a handler gets no further. The timer of the maintenance buffer may read a route at NULL, use a
-- packet that could not be allocated, or transmit a salvaged packet that `dsr_dev_xmit` hands to
-- `maint_buf_add`, which waits for the lock that the handler holds. The buffer has a flag for that,
-- `faulty`, behind which the model does nothing more. The handlers of options have no result then, nor
-- where they use a packet at NULL. Else a packet that is transmitted is kept as an effect: what
-- `dsr_dev_xmit` does with the maintenance buffer for one that asks for an acknowledgement is
-- `maint_buf_add`, which is not called from within the handlers here; the theorems on whole handlers
-- and on sequences of events are about packets that do not ask for one.
--
-- Not modelled: options of a received packet that are shorter than their headers, options behind a
-- request that is sent on, a table of requests with a limit of 0, a full send buffer's wait for its own
-- lock, and padding between options, where the source reads or writes beside them
-- (a handler then has no result, or has no such option); the growth of the space for options
-- (dsr-pkt.c), which has room for one address in a packet that came in; `dsr_opt_remove` and the
-- headers (dsr-opt.c); `neigh_tbl_del`; the route cache that is not built
-- (dsr-rtc-simple.c); the rest of the kernel glue (dsr-module.c, dsr-dev.c, the proc files), the ns-2
-- agent, the debug output, and list.h, which is the list of the Linux kernel.
mod Base
pub mod Tbl
pub mod Srt
pub mod Timer
pub mod Conf
pub mod LinkCache
pub mod Rreq
pub mod Neigh
pub mod Pkt
pub mod Send
pub mod SendBuf
pub mod MaintBuf
pub mod Opt
pub mod Rrep
pub mod Node
pub mod Recv
pub mod StartXmit
pub mod Life
