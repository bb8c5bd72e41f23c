-- ===== src/Lib.antt =====
-- Verification of libsponge, a TCP implementation in C++.
--
-- The program. A `ByteStream` is a bounded queue of bytes. A `StreamReassembler` puts substrings,
-- in any order and with overlaps, into a byte stream. A `TCPReceiver` gives the payloads of
-- segments to a reassembler, at the index that their 32-bit sequence number stands for. A
-- `TCPSender` turns a byte stream into segments, and keeps them until they are acknowledged. A
-- `TCPConnection` has one of each, stamps the sender's segments with the receiver's
-- acknowledgment, and handles resets, timeouts and lingering. Adapters carry its segments, in IPv4
-- datagrams or over UDP. A `NetworkInterface` puts datagrams into Ethernet frames and finds the
-- Ethernet address of the next hop with ARP messages, and a `Router` passes datagrams from one
-- interface to another. An `EventLoop` calls the rules whose descriptors are ready; with it
-- `bidirectional_stream_copy` copies bytes between the standard streams and a socket, and a
-- `TCPSpongeSocket` runs a connection in a thread of its own: four rules carry bytes between the
-- owner's end of a socket pair and the connection, and segments between the connection and an
-- adapter. `network_simulator` joins hosts to a router by wires that carry frames, and
-- `udp_tcpdump` looks for the UDP payload in captured packets.
--
-- The modules, with the code that each is about:
--   Common        shared names and lemmas; machine words with their wrap-around, C++ exceptions
--   ByteStream    libsponge/byte_stream.hh, .cc
--   Reassembler   libsponge/stream_reassembler.hh, .cc
--   Seqno         libsponge/wrapping_integers.hh, .cc
--   Tcp.Config    libsponge/tcp_helpers/tcp_config.hh
--   Tcp.Segment   libsponge/tcp_helpers/tcp_header.hh, tcp_segment.hh, tcp_segment.cc
--   Tcp.Timer     class RetransmissionTimer of libsponge/tcp_sender.hh
--   Tcp.Receiver  libsponge/tcp_receiver.hh, .cc
--   Tcp.Sender    libsponge/tcp_sender.hh, .cc
--   Tcp.State     libsponge/tcp_helpers/tcp_state.hh, .cc
--   Tcp.Connection  libsponge/tcp_connection.hh, .cc
--   Wire.Parser   libsponge/util/parser.hh, .cc
--   Wire.Segment  TCPHeader::parse and serialize of libsponge/tcp_helpers/tcp_header.cc
--   Wire.Checksum  class InternetChecksum of libsponge/util/util.hh, .cc
--   Wire.Bytes    what the formats share: flags, padding
--   Wire.Buffer   libsponge/util/buffer.hh, .cc
--   Wire.TcpSegment  libsponge/tcp_helpers/tcp_segment.cc
--   Wire.Ipv4     libsponge/tcp_helpers/ipv4_header.hh, .cc
--   Wire.Datagram  libsponge/tcp_helpers/ipv4_datagram.hh, .cc
--   Wire.Ethernet  libsponge/tcp_helpers/ethernet_header.hh, .cc, ethernet_frame.hh, .cc
--   Wire.Arp      libsponge/tcp_helpers/arp_message.hh, .cc
--   Address       libsponge/util/address.hh, .cc, for IPv4 addresses
--   Adapter.Base  FdAdapterConfig of libsponge/tcp_helpers/tcp_config.hh, FdAdapterBase of fd_adapter.hh
--   Adapter.OverIp  libsponge/tcp_helpers/tcp_over_ip.hh, .cc
--   Adapter.OverUdp  libsponge/tcp_helpers/fd_adapter.hh, .cc
--   Adapter.Lossy  libsponge/tcp_helpers/lossy_fd_adapter.hh
--   Adapter.OverTun  TCPOverIPv4OverTunFdAdapter of libsponge/tcp_helpers/tuntap_adapter.hh
--   Adapter.OverEthernet  TCPOverIPv4OverEthernetAdapter of tuntap_adapter.hh, .cc
--   Link.Interface  libsponge/network_interface.hh, .cc
--   Link.Router   libsponge/router.hh, .cc
--   FileDescriptor  libsponge/util/file_descriptor.hh, .cc
--   EventLoop     libsponge/util/eventloop.hh, .cc
--   StreamCopy    apps/bidirectional_stream_copy.cc
--   Socket        class UDPSocket of libsponge/util/socket.hh, .cc
--   TcpSpongeSocket  libsponge/tcp_helpers/tcp_sponge_socket.hh, .cc: Base has the state, Rules the
--                 event rules, Life the loop and the calls, Drivers the adapters, Clients the
--                 derived sockets
--   Simulator     apps/network_simulator.cc: Addresses, Host, Network, Topology
--   UdpTcpdump    apps/udp_tcpdump.cc
-- A class is a record with the same fields, and a method is a function of the same name from the
-- record to the record, with its arguments and its result. Proofs are in child modules; the
-- examples are in modules named Examples.
--
-- Conventions. Bytes and words are native numbers; an operation on a w-bit word has its wrap-around
-- written out, and `size_t` is 64 bits. A queue or a `std::list` is a list. An exception is
-- `Result.throw`. `goto out` and early returns are calls of the function for the rest of the code.
-- The `do` loop of `fill_window` runs on fuel: a round after which it goes on has read a byte from
-- the stream, so one more than the bytes in the stream is enough. The loops over the list of the
-- reassembler and the queue of the sender are structural. The loop of `InternetChecksum::value` has
-- fuel for three rounds: the first leaves at most 2 ^ 17 - 2, and the second less than 2 ^ 16.
--
-- A `Buffer` that is only read is the list of its bytes, and a `BufferList` the list of its buffers.
-- A `std::unordered_map` is an association list; no code depends on its order. The loop of `route`
-- goes over the interfaces that are there when it starts, which are those at its end. System calls
-- act on a state of the system that is a parameter, with what they promise as a hypothesis where a
-- proof needs it, and the loop that waits for events runs for the answers of `poll` that it is given.
-- The loop of `FileDescriptor::write` has fuel for each byte and one more: a round that does not
-- throw writes a byte.
--
-- The socket of the stack is generic in its adapter, as in the source, and its rules act on the
-- connection, the ends of the socket pair and the flags. The owner's thread appears as what the
-- loop meets: each round is given the answer of `poll`, whether `_abort` is set, and the time.
-- The loop over the extension headers of IPv6 has as much fuel as the packet has bytes: a round goes
-- eight bytes on. A reading past the end of a packet is a result of its own.
--
-- Not modelled: printing; opening, binding and connecting sockets, tunnel devices and captures, which
-- are system calls, and the start and the joining of threads; the programs that only parse their
-- arguments and call the library. The random initial sequence number is an argument, and so is the number
-- that a lossy adapter draws. What is held past the first exception is not described. An address is
-- an IPv4 address: what `ipv4_numeric` throws on others, and resolving names, are left out.
pub mod Common
pub mod Seqno
pub mod ByteStream
pub mod Reassembler
pub mod Tcp
pub mod TcpSpongeSocket
pub mod Socket
pub mod Address
pub mod Wire
pub mod Link
pub mod Adapter
pub mod FileDescriptor
pub mod EventLoop
pub mod StreamCopy
pub mod Simulator
pub mod UdpTcpdump
