-- ===== src/Lib.antt =====
-- ethox, a network stack in Rust that works on buffers it is given: the TCP connection and what it
-- is built on. Paths are from the repository's root.
--
-- PARTS. ethox/src/wire/ holds the formats of packets. ethox/src/wire/tcp.rs has the sequence
-- numbers (SeqNumber, a 32-bit circle), the control flags and the parsed header (Repr).
-- ethox/src/time.rs has the clock values. ethox/src/layer/tcp/connection.rs is the state machine
-- of one TCP connection: it takes arriving headers (arrives), is told what the layer above has
-- read (set_recv_ack), and chooses the next segment to transmit (next_send_segment). It touches no
-- payload and no clock of its own; ethox/src/layer/tcp/endpoint.rs keeps the connections in a slot
-- map (ethox/src/managed/slotmap.rs, on ethox/src/managed/partial.rs), finds the one that a packet
-- belongs to and hands it the key of its entry. Below it, ethox/src/layer/ip/ sends what TCP
-- makes: its table of routes (route.rs) finds the next hop of an address among the networks of
-- ethox/src/wire/ip.rs, and the cache of ethox/src/layer/arp/neighbor.rs its hardware address.
--
-- FILES. Base passes on the library's names and adds tests, the outcome of a call (Outcome: it
-- returns or it panics), and lists measured by native numbers. Wire/Seq is SeqNumber, Wire/Flags
-- is Flags, Wire/Repr is Repr and the address of ethox/src/wire/ip.rs, and Wire/Ip the masks,
-- hosts and networks of that file, of ethox/src/wire/ipv4.rs (Wire/Ip/V4) and of
-- ethox/src/wire/ipv6.rs (Wire/Ip/V6). Wire/Checked is the Result of ethox/src/wire/error.rs with
-- its `?`, Wire/Bytes the octets that byteorder reads and writes, Wire/Checksum the module
-- checksum of ethox/src/wire/ip.rs, Wire/Options is TcpOption, and Wire/Segment is Packet of
-- ethox/src/wire/tcp.rs, with Repr::parse and the accessors for selective acknowledgement in
-- Wire/Segment/Parse and Repr::emit in Wire/Segment/Emit. Wire/Udp is ethox/src/wire/udp.rs and
-- Wire/Ipv4 the packet of ethox/src/wire/ipv4.rs, each with its accessors in the file, check_len
-- and Repr::parse in the module Parse, and what a receiver makes of an emitted header in the
-- module Sent; Wire/Udp/Carried puts a datagram in a packet. Time is Instant and Expiration.
-- Tcp/Types holds the data of connection.rs, field by field; Tcp/Segments its small values;
-- Tcp/Window the methods of Send and Receive; Tcp/Acks the shared steps (ack_all, timers,
-- window_update, set_recv_ack); Tcp/Opening open, arrives_closed, arrives_listen and
-- arrives_syn_sent; Tcp/Ingress arrives_established and arrives; Tcp/Egress select_send_segment
-- and next_send_segment. Tcp/Machine puts the calls together as a step relation, with the three
-- writes to a connection from outside its file (the window that Open::read of
-- ethox/src/layer/tcp/packet.rs announces, and what listen and remove of endpoint.rs make of the
-- state) and with the invariant IsSound. Managed/Partial, Managed/Ordered and Managed/Slotmap are
-- the files of those names, and Storage/Assembler is ethox/src/storage/assembler.rs, which keeps
-- the ranges of fragments that arrive out of order; Storage/Assembler/Bytes reads it as a set of
-- bytes. Layer/Route is the routing table of ethox/src/layer/ip/route.rs, Layer/Neighbor the cache
-- of hardware addresses of ethox/src/layer/arp/neighbor.rs, read as a map in Layer/Neighbor/Keys,
-- and Storage/Ring is ethox/src/storage/ring_buffer.rs, a ring of elements, and Storage/Ring/View
-- reads it as one list. Below each of them stand the files with the proofs, named for what they
-- prove; Examples holds concrete runs.
--
-- CORRESPONDENCE. A method on `&mut self` is a function from the old connection to the new one,
-- beside its result; a method that can panic returns an Outcome. A buffer is a list of octets, and
-- a method that writes to it returns the new one; a part that is handed out mutably is put back
-- where it was taken. A mask of low bits is written as a remainder. A long method is cut at its
-- early returns, and each part is a definition of its own. `open` is called open_connection, and
-- methods of the same name on several types are told apart by their modules. Signals are values
-- that the caller acts on, as in the source. An EntryKey carries the tuple of the slot, the
-- generator of initial sequence numbers as a function (an argument that stands for siphash.rs),
-- and the list of the calls of its trait PortMap.
--
-- NUMBERS. A w-bit unsigned integer is a number below 2^w with its wrap-around or saturation
-- written out. A SeqNumber is the bit pattern of its i32. An Instant is its i64 plus 2^63, which
-- keeps the order. A Duration is a number of nanoseconds. A usize has 64 bits, and arithmetic is
-- that of a release build: sums wrap, shift counts are masked, and debug assertions are not there;
-- `assert!`, `unwrap`, `expect`, `unimplemented!` and an index out of range are panics.
--
-- BOUNDS. IsSound allows at most 2^30 numbers in flight, which is more than a window field of 16
-- bits under a scale of at most 14 can grant; IsWire states the ranges of the header's fields,
-- with the limit on the scale that the parser imposes. IsHeader states which headers the format
-- can carry. Most loops of the code modelled run over a list, and so does the recursion. The loops
-- over the options of a segment run on fuel, the number of octets that are left, as each round
-- takes one at least; without fuel they would end in a panic, so that a theorem that excludes
-- panics covers it. The loop of the checksum over blocks runs on the length of the slice.
--
-- NOT MODELLED. The buffers of layer/tcp/io.rs, the maps of the endpoint, what layer/ip does
-- besides routing, the other layers, and the remaining wire formats are outside the model, which
-- takes what it needs of them as arguments; interfaces that do I/O (nic/, the io-uring and bpf
-- crates) and display code are left out.
pub mod Base
pub mod Layer
pub mod Wire
pub mod Time
pub mod Tcp
pub mod Managed
pub mod Storage
pub mod Examples
