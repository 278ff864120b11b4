-- ===== src/Lib.antt =====
-- A model of the user-space network stack in src/, and what holds of it.
--
-- The stack receives frames from libpcap devices (src/packetio.cc, src/device.cc), resolves addresses
-- (src/arp.cc), routes and forwards IP packets (src/pnx_ip.cc, src/routing.cc), runs TCP connections
-- over them (src/pnx_tcp.cc) and gives them to programs as sockets (src/pnx_socket.cc). This library
-- models the layers from the frame to the socket:
--
-- Base: Boolean tests, lists with native lengths, machine words, and association lists, for all
--   other modules.
-- Ring: src/includes/ringbuffer.h. A `RingBuffer` is a record with the fields of the class; a
--   method is a function of it that keeps its name, but for the bulk `pop(T*, size_t)`, which is
--   `pop_all`. The template argument `Capacity` is the argument `cap`, below 2^31 in what is
--   proved. The two loops of `push_all` and `pop` run on fuel 4: their own counter fails an
--   assertion after three rounds, and a valid buffer needs two. Ring.Queue is the specification.
--   Ring.Blocking is `BlockingRingBuffer`, whose waits are a function that gives what the other
--   threads leave.
-- Bytes, Checksum: byte order, and the two loops of `calc_iphd_checksum` (src/pnx_ip.cc) and
--   `_tcp_checksum` (src/includes/tcp_segment.h). Folding takes three rounds at most on 32 bits,
--   which is its fuel.
-- Segment: src/includes/tcp_segment.h. The header is a record of the fields of `struct tcphdr` as
--   they stand in the memory of a little-endian host; `to_bytes` and `of_bytes` go to the buffer
--   and back.
-- Tcp: src/includes/pnx_tcp_tcb.h with the constants of src/includes/pnx_tcp_const.h as a record,
--   so that what is proved holds for any sizes. Tcp.Send is the sending of segments, Tcp.Timer
--   `_tcp_timer`, Tcp.User the calls of the socket layer, Tcp.Handle the handlers of incoming
--   segments. An operation takes a control block and gives an `Out`: the block after it, the
--   segments given to `ip_send_packet`, and the result. The clock and the result of
--   `ip_send_packet` are in an `Env`. `none` is a failed assertion, which ends the process.
-- Tcp.Connection: the events of one connection, one after the other. Each holds `tcp_lock` in the
--   source, so they do not interleave. Tcp.Ready says what keeps assertions from failing.
-- Tcp.Table: the tables of src/pnx_tcp.cc. A `TCB*` is an index of the heap, which keeps `none` for
--   a deleted block; a `SocketBlock*` is a number; the maps are association lists (Base.Assoc).
--   Tcp.Table has `_tcp_open`, the listening sockets and `tcp_close`, Tcp.Table.Step
--   `tcp_segment_handler`, the timer threads and the recycler's two steps; Tcp.Table.Reach is any
--   sequence of these, Tcp.Table.Fresh the blocks that an open makes, and Tcp.Table.Exit the
--   clean-up at exit.
-- Routing: the tables of src/routing.cc and the subnet functions of src/pnx_utils.cc. `std::sort`
--   on the tables, which hold pointers, is a record of a function and what is used of it: not the order,
--   which is that of the addresses.
--   Routing.Distance is the format of the distance-vector messages, Routing.Update what a message
--   does. The vector, an `std::unordered_set`, is a list in some order. Routing.Daemon is a round
--   of `fire_distance_upd_daemon`, with what the neighbours make of it; Routing.Daemon.Network has
--   many hosts that exchange the frames of their rounds.
-- Device, Frame: src/device.cc and src/packetio.cc. The arrays of devices are one list, and an id
--   is an index. What libpcap and the system give comes with a device, and Device.Open has how
--   their calls end as an argument; a frame that is handed to `pcap_sendpacket` is the result.
-- Arp: src/arp.cc. Each stretch of `ARPQuery` and `ARPHandler` that holds the lock is a step; a
--   thread that waits is an entry of a list (Arp.Threads), and a time-out is the end of its wait.
-- Ip: src/pnx_ip.cc. A packet is a record of the fields of `struct iphdr` and the bytes behind
--   them. What `ARPQuery` answers is a function in the record of a host.
--   Ip.Queue is the buffer between the callers of `ip_send_packet` and its thread.
-- Socket: src/pnx_socket.cc. A `SocketBlock*` is an index of the list of blocks. A call takes the
--   whole state and gives the state after it; one that waits is a round of its loop (Socket.Io),
--   since others run between the rounds. Socket.Hear takes a segment on to the listening socket.
--   `none` is a null pointer or a failed assertion.
-- Shutdown: src/gracefully_shutdown.cc, over any state of the process.
-- Stack: what a frame does to all layers of a host, as `frame_handler` calls them.
--
-- Bytes are numbers below 256, and `uint32_t` arithmetic is taken modulo 2^32. The fields
-- `remote_recv_window` and `window` of a control block are left out, since no code reads them. The
-- length that `tcp_receive` is given is not negative here: Socket.Io has the failed assertion on a
-- negative one. The bytes of a packet in the queue of `ip_send_packet` are those of the call,
-- though the source's queue shares them with the last segment of the connection, whose header
-- `_tcp_timer` rewrites.
--
-- Not modelled: the threads that receive frames, the optional callbacks for frames and packets, the
-- joining of threads at exit; the reading of the system's routes, which is never run; logging and
-- clocks, which are calls of the system; the program mperf, a copy of another project; the
-- checkpoints and the tests.
pub mod Base
pub mod Ring
pub mod Bytes
pub mod Checksum
pub mod Segment
pub mod Routing
pub mod Device
pub mod Frame
pub mod Ip
pub mod Arp
pub mod Tcp
pub mod Socket
pub mod Stack
pub mod Shutdown
