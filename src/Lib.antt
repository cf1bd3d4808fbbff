-- ===== src/Lib.antt =====
-- Verification of mod_cpg, the failover module for FreeSWITCH: nodes that form a corosync process
-- group share a virtual ip, one of them serves it, and another takes it over when that one is
-- lost.
--
-- The parts and how they interact. The state machine of a virtual ip (fsm.c) is a table of actions
-- by event and state. Its inputs (fsm_input.c) turn what happens outside into events: commands,
-- the loss and the arrival of nodes, and the state messages of other nodes, with which the node
-- list (node.c) is kept. The actions use the utilities (cpg_utils.c) to put the address on an
-- interface by netlink, announce it by a gratuitous ARP frame (arpator.c) and control the sofia
-- profiles, and they multicast the state and SQL statements to the group (cpg_virtual_ip.c), whose
-- callbacks deliver such messages to the inputs at the other nodes.
--
-- The files.
--   Base: Boolean tests, lists by native numbers, C integers, strings as bytes.
--   Types: virtual_ip_types.h and the node of node.h.
--   World: what is outside of the code, as an environment that answers every call, with the log of
--     the calls; operations pass a world (virtual ip, static rings of arpator.c, log) and may
--     fault or hang. World/Returns: total correctness of such runs. World/Partial:
--     partial correctness. World/Sleep: what others do while a thread sleeps.
--   Node: node.c. Node/Order, Node/Contents, Node/Memory: the order, the contents as a map from
--     ids to priorities, and the calls of malloc and free. Node/Election,
--     Node/Announcements: the first node of two lists, and of lists filled in two orders.
--   Links: node.c with its pointers, on a memory of nodes. Links/Chain, Links/Find, Links/Insert,
--     Links/Add, Links/Remove, Links/Clear: what a chain of nodes stands for, and each function of
--     Node as what its pointer code does to a chain.
--   Arp: arpator.c. Arp/Frame, Arp/Ring, Arp/Send: the bytes of a frame, the static rings that
--     hold converted addresses, what is sent.
--   Utils/Ip, Utils/Sofia, Utils/Garp: cpg_utils.c. Utils/Ip/Bound: whether the address is on the
--     interface, read off the answers of netlink. Utils/Ip/Handles: what of netlink is released.
--   VirtualIp/Message, VirtualIp/Delivery, VirtualIp/Multicast: the messages of cpg_virtual_ip.c,
--     their sending, and what corosync takes of them.
--   VirtualIp/Names, VirtualIp/Profiles: the names of states, and the profiles of a virtual ip.
--   Module: the hash of virtual ips, `map_vip`, the event handler, the command `cpg vip` and a round
--     of the runtime thread of mod_cpg.c, with the lookups of cpg_virtual_ip.c. Module/Arbiter,
--     Module/Command, Module/Lookup: what they do. Module/Report: `cmd_status` and `list_vips`, with
--     Module/Report/Readback, what the report says. Module/Api: `cpg_function`, with
--     Module/Api/Safety, what a command line does to the virtual ips.
--   Config: cpg_config.c. Config/Profiles, Config/Params, Config/Registry, Config/Loaded,
--     Config/Start: the array of profiles, the parameters, the hash, all of it, the virtual ips
--     before they are started.
--   Entry: loading, running and shutting down in mod_cpg.c. Entry/Load, Entry/Fences: what they do.
--   Rollback: the thread of cpg_virtual_ip.c that gives the address back. What other threads do
--     while it sleeps is a function of the world, of which its theorem assumes that the delay stays.
--   GroupThread: `vip_thread` of cpg_virtual_ip.c. GroupThread/Protocol, GroupThread/Retry,
--     GroupThread/Balance: the membership read off its calls, its two retry loops, the whole thread.
--     GroupThread/Soundness, GroupThread/Silence, GroupThread/Whole: the callbacks that it dispatches
--     and the invariant, the callbacks and the membership, all of it together.
--   Life: inputs and callbacks in any order, as a step relation on worlds.
--   Agreement: the callbacks that corosync makes to the nodes of a group. Agreement/Known,
--     Agreement/Both, Agreement/OneMaster: the node list as a map, the lists of two nodes with the same
--     callbacks, who takes the address over. Agreement/Joining, Agreement/Succession: a node announces
--     itself to another, a master is announced and lost. Agreement/Successor,
--     Agreement/Line: a group that loses its master, and one master lost after another.
--   Callbacks: the two corosync callbacks of cpg_virtual_ip.c. Callbacks/Roundtrip: a message is
--     read as it was sent. Callbacks/Safety, Callbacks/Views, Callbacks/Failover: a callback keeps the
--     invariant, what it makes of the node list, and the loss of the master.
--   Fsm: fsm.c. Fsm/Down, Fsm/Takeover, Fsm/Transitions, Fsm/Mastery, Fsm/OneMaster, Fsm/Updates:
--     `go_down`, `act` and `react`, the table, who serves the address, two nodes, `backupup`.
--   Input: fsm_input.c. Input/Safety, Input/Views, Input/History: the invariant, the node list, and
--     sequences of inputs.
--   Tests: concrete surroundings, at which the theorems are applied.
-- A function of the model has the name of the C function; a loop or a part of a function has a name
-- of its own and says which part it is.
--
-- Calls and answers. A theorem for every environment is one for every behaviour of corosync, libnl,
-- FreeSWITCH, the kernel and libc. What a theorem needs of them is a named hypothesis: Responsive
-- (corosync does not answer CPG_ERR_TRY_AGAIN for ever; the fuel `patience` of the retry loop is
-- enough where it does not), Addresses (libc reads the configured addresses), ReadsDotted (libc
-- takes no text longer than fifteen characters for an IPv4 address), HasMemory (malloc gives a
-- node), IsFresh (the address that malloc gives is not in use), HasContext (corosync finds the
-- context in every callback: the delivery of a message follows the context without looking whether
-- it was found, and faults in the model where it was not), HasCodes (CPG_OK is not
-- CPG_ERR_TRY_AGAIN), Takes (corosync refuses no message), HasBuffers (malloc gives the buffer of a
-- state message).
--
-- That an address is bound, or on an interface, is read off the calls of netlink: the last one that
-- named the address and the index of its device, as `if_nametoindex` last gave it, and that had its
-- effect, was an addition. A call had its effect if it reported no error, or -17 (EEXIST) for an
-- addition and -99 (EADDRNOTAVAIL) for a removal. The code looks for a negative index where
-- `if_nametoindex` knows no device, but gets 0; the model takes a 0 for an index as the code does,
-- and leaves it to the answers of netlink what a call with it does.
--
-- Bounds. An unsigned int and a handle are natural numbers, an int is an integer; the bytes of a
-- message have the wrap-around to 32 bits written out. The loops that run until the module stops take
-- the number of their rounds until then, and the theorems hold for every number. The loops of Links
-- run on fuel, for which more than the length of the list is enough. The product of ints that limits
-- the rollback timer is a fault where it overflows; its loop runs on 2 ^ 31 of fuel, which is more
-- than an int lets it make.
--
-- Not modelled: log messages and the text in them;
-- the helper scripts and the patches of FreeSWITCH. Two threads of a virtual ip at the same time are
-- not modelled but for what others do while the rollback thread, the group thread or the runtime
-- thread sleeps or waits, which is a function of the world or of the hash: an input is not
-- interrupted.
pub mod Base
pub mod Types
pub mod World
pub mod Node
pub mod Arp
pub mod Utils
pub mod VirtualIp
pub mod Fsm
pub mod Input
pub mod Callbacks
pub mod Agreement
pub mod Config
pub mod Entry
pub mod GroupThread
pub mod Life
pub mod Links
pub mod Module
pub mod Rollback
pub mod Tests
