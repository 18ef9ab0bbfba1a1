-- ===== src/Lib.antt =====
-- A verification library for ldpd, the Label Distribution Protocol daemon.
--
-- The daemon is three processes. The parent reads the configuration and the kernel's routes; the LDP
-- engine (ldpe) keeps the sessions with the neighbors; the label decision engine (lde) holds the
-- label information base. They exchange messages (imsg). This library models the label decision
-- engine, the routing table of the parent, and of the LDP engine the neighbor with its session, the messages that it
-- exchanges, and discovery: hellos make and keep adjacencies, adjacencies keep neighbors. In session_read the parts
-- meet: PDUs are cut out of the stream, each message goes to its handler, and the handlers drive the
-- neighbor's state machine and hand maps and addresses to the label decision engine.
--
-- Parts and files:
-- - Fec, Fec/Order: the classes (struct fec of lde.h) and their order (fec_compare of lde_lib.c).
-- - RbTree, RbTree/Laws: the red-black trees of sys/tree.h that the program keys by classes and peer
--   ids, as ordered lists, with the laws that the other files use. The trees are a library of the
--   system; their balance is not modelled.
-- - Lde: the heap of the label decision engine (lde.h, ldpd.h), where pointers are keys of a store and
--   a use of a NULL or stale pointer, or fatalx, sets a flag. Children: Convert (lde_fec2map,
--   lde_map2fec), Kernel (labels in the kernel, lde.c and l2vpn.c), Send (the messages sent and the
--   records of mappings, requests and withdraws, lde.c), Check (lde_check_* of lde_lib.c and
--   l2vpn_pw_negotiate), Peers (neighbors and their addresses, lde.c), Routes (lde_kernel_insert and
--   lde_kernel_remove, egress labels, pseudowires, the collector), Dispatch (lde_dispatch_imsg,
--   lde_dispatch_parent and the timer), Steps (the states that can be reached).
-- - Lde/Links and its children: the invariant of that heap, and for each function that it is kept.
--   Lde/Safety: what follows for reachable states.
-- - Nbr: the neighbor of the LDP engine (neighbor.c, with session_accept, session_shutdown and
--   session_close of packet.c, recv_keepalive of keepalive.c and the end of recv_init of init.c).
--   Children: Events (the timers' callbacks and the guards of session_read), Fsm, Timers, Trace, PeerId,
--   Order, Negotiation (the values that an initialization settles), Backoff (what the delay between attempts
--   depends on).
-- - Discovery: adjacencies, neighbors, targeted neighbors and pending connections. Children:
--   Adjacency (adjacency.c, nbr_new and nbr_del of neighbor.c, pending_conn_* and session_accept_nbr
--   of packet.c), Hello with Message and Target (recv_hello of hello.c, nbr_establish_connection of
--   neighbor.c, bad_addr of util.c), Interface (interface.c), View and its children (the pointers of
--   that state, their invariant, and for each function that it is kept), Safety (the states that can
--   be reached), Orphans (a router that changes its LSR id), Interface/States (when a family of an
--   interface is active), Tree (the search by nbr_id_compare).
-- - Kroute: the routing table of the parent and which routes it announces (kroute.c). Children: Change
--   (labels, removal, what a routing message does), Settled, Announced and Labels (what the operations
--   keep), Runs (any sequence of them).
-- - Wire: the bytes of messages. Children: Bytes, Mask (prefix masks of util.c), Fec (gen_fec_tlv and
--   tlv_decode_fec_elm of labelmapping.c), Tlv (the loop over optional TLVs that labelmapping.c, init.c and
--   notification.c share), Label with Send and Recv (send_labelmessage and recv_labelmessage), Address
--   (address.c), Init (init.c), Hello (send_hello and the reading of hello messages in hello.c),
--   Notification (notification.c), Framing (session_get_pdu of packet.c), Session (session_read of
--   packet.c, with a stream in parts in Session/Chunks). Modules below them hold the proofs, as
--   Notification/Backoff those on refused attempts to open a session.
-- - Base: shared names, Boolean tests, lists; Base/Branch: a conditional that stays shut, so that a
--   proof follows the branches of a function by lemmas; Base/Finite: facts by trying all cases.
-- - The Tests modules run the definitions at concrete inputs.
--
-- Choices. Integers are natural numbers with their wrap-around written out; addresses are numbers
-- in host order, and so are message ids; in hello messages addresses are their bytes. The signs of
-- comparison functions are an Ordering. Peer ids in the label decision engine are compared as
-- numbers, which is lde_nbr_compare below 2^31. Neighbors come up with peer ids that are free,
-- which the LDP engine sees to; a pseudowire is not freed while a class is attached to it. Memory
-- exhaustion (calloc) is not modelled. nbr_fsm runs on fuel 2, which is enough because the one
-- event that it raises itself raises none; the search for a peer id runs on one round more than
-- there are ids in use.
--
-- A buffer is the list of the bytes from a pointer to the end of what was received, and a parser's result
-- says whether it read past that end (overrun) or ran out of its fuel (hang). What read gives to session_read
-- is an input, and the capacity of its buffer a parameter. The loops of the parsers run
-- on as much fuel as there are bytes left, which is enough where every round consumes a byte; the loop over
-- the sub-TLVs of a pseudowire does not always, and then its result is hang. send_labelmessage runs on two
-- rounds for each message, send_address on one for each address. PDU lengths are taken to be at least
-- 256, as recv_init settles them. A second FEC TLV in a notification is read over a zeroed class.
--
-- In the discovery state a pointer to an adjacency or a targeted neighbor is the number of its
-- allocation, a pointer to a neighbor is its LSR id, and the list of a neighbor or an interface is what
-- of the global list points there. The trees nbrs_by_id and nbrs_by_addr are one list, so that the
-- order of the neighbors is left open, and RB_FIND by the LSR id is a search for an equal one. In the
-- program nbr_id_compare directs it, which is an order only where ids lie close together: the states that
-- Discovery/Safety treats are those where it orders the ids as numbers, and Discovery/Tree is about the
-- search. Where it does not, RB_FIND can miss a neighbor, which is not modelled. How a connect ends, whether a socket passes the checks of GTSM
-- and MD5, and whether an interface joins the multicast group are inputs. The loop of if_reset runs on as
-- much fuel as there are adjacencies, each of its rounds deletes one. What writev does with a message to
-- the routing socket is an input too.
--
-- Not modelled: the bytes of the routing socket and the interfaces of the kernel (kroute.c), the rest of
-- the parent (ldpd.c, parse.y), the event loop and the imsg of the LDP engine (ldpe.c),
-- disc_recv_packet and the other reading of sockets, the control socket, logging and socket options.
mod Base
pub mod RbTree
pub mod Fec
pub mod Lde
pub mod Nbr
pub mod Discovery
pub mod Kroute
pub mod Wire
