-- ===== src/Lib.antt =====
-- A verification library for tcppump, a packet generator: instructions such as `eth(...)` or
-- `udp(...)` are parsed, compiled to Ethernet frames, and sent at their times. Modelled are the way
-- from a script to instructions and their times, and the parts that put the bytes of the packets
-- together. src/compiler/fileparser.cpp cuts a script into instructions,
-- src/compiler/instructionparser.cpp parses each, and src/compiler/compiler.cpp collects the
-- packets with the delays before them. A frame is built in a buffer by
-- src/packets/ethernetpacket.cpp; the classes of the protocols hand it their headers and data; the
-- compiler in src/compiler/instructionparser.cpp calls them in the order of the instruction's
-- parameters.
--
-- Checksum models src/packets/inetchecksum.hpp and src/packets/inetchecksum.cpp: `rfc1071_calc`
-- with its loops for odd and even addresses, `rfc1071_finalize`, and the overloads of `rfc1071`. A
-- uint32_t wraps at 2^32, and the host is little-endian.
--
-- Ethernet models src/packets/ethernetpacket.hpp and src/packets/ethernetpacket.cpp.
-- `EthernetPacket` has the fields of cEthernetPacket, with offsets for the pointers into its
-- buffer; each method is a function from the packet to the packet or to an error. Ethernet.Tag is
-- vlan_t. Ethernet.Layout says which parts (addresses, tags, type, LLC header, payload) a packet in
-- its buffer stands for, and what each method does to them. Ethernet.Compile is compileETH of
-- src/compiler/instructionparser.cpp with compileMacHeader and compileVLANTags, on parameters that
-- have been looked up.
--
-- Ethernet.Arp is src/packets/arppacket.cpp on top of it, Ethernet.Stp is
-- src/packets/stppacket.cpp, and Ethernet.Lldp with Ethernet.Tlv is src/packets/lldppacket.cpp, on
-- the fixed arrays of src/common/bytearray.hpp; Ethernet.Lldp.Reader has a receiver that is no code
-- of the program. Ip models src/packets/ippacket.hpp and src/packets/ippacket.cpp: Ip.Header the
-- bytes of `ipv4_header_with_router_alert_t::compile`, Ip.Packet the state of cIPPacket, and
-- Ip.Fragments `v4compile`, which cuts a datagram into fragments. Ip.Receiver is no code of the
-- program: it is a host that reads headers and joins fragments, the specification of the sender.
-- Ip.Six is `v6compile` with its header, and Ip.Six.Format, the header of RFC 8200, is its
-- specification, as Ethernet.Stp.Message, the messages of IEEE 802.1D, is that of Ethernet.Stp. The
-- memory that `new` returns is an argument of the definitions, since its old contents stay in a
-- buffer.
--
-- Transport models the layer 4 packets on top of IPv4. `calc_checksum` with `pseudo_header` is
-- calcChecksum of src/packets/udppacket.cpp and src/packets/tcppacket.cpp, over both IP versions;
-- Transport.Udp, Transport.Tcp, Transport.Icmp, Transport.Igmp, Transport.Vrrp, Transport.Gre and
-- Transport.Vxlan are the classes of the files of these names in src/packets, and Ip.Update is the
-- part of cIPPacket that they call behind `compile`. The fields of the UDP and TCP headers hold the
-- values in memory, after htons and htonl. Transport.GreReader is no code of the program but a host
-- that reads GRE headers.
--
-- Text models the tokens of src/compiler/parsehelper.hpp and src/compiler/parsehelper.cpp, a
-- pointer being the text from there on. Script is `cFileParser::parse` of
-- src/compiler/fileparser.cpp, character by character, and the calls of it for a file. Params is
-- src/compiler/parameterlist.cpp: `parse_parameters`, in Params.Find the lookups with their marks,
-- and in Params.Values integers and streams; the random numbers of src/common/random.cpp come from
-- the next number of the generator, an argument. Instruction is `cInstructionParser::parse` with
-- Instruction.Keyword, the keywords of src/compiler/syntax.hpp; what compiles the parameters is an
-- argument, which Handler.Compile gives. Timing is src/compiler/compiler.cpp with the times of
-- src/common/timeval.hpp: `process` is the loop of `processPackets` and of `processScriptFiles`. In
-- Script.Layout, Params.Written and Instruction.Written stand the texts that users write, and in
-- Timing.Schedule the times that they mean; these are no code of the program but its specification.
--
-- Address models `set` and `setRandom` of src/common/macaddress.hpp and src/common/ipaddress.hpp;
-- `inet_pton` of the system is an argument. Syntax has the names of the parameters of
-- src/compiler/syntax.hpp. Handler models the handlers of src/compiler/instructionparser.cpp as
-- they are: a handler goes from the state `World`, which holds the list with its marks, the number
-- of random numbers taken, the next identification and the TCP sequence number, to its packet and
-- the next state, or to an error. `Env` holds what does not change: settings, the memory that `new`
-- returns, the random numbers, and where bytes lie. Handler.Mac is compileMacHeader and
-- compileVLANTags, Handler.Eth, Raw, Ip, Udp, Tcp and Icmp are the handlers of these protocols,
-- with VXLAN in Udp, GRE in Tcp and VRRP in Icmp, and Handler.Compile is the choice of the handler
-- and compileEmbedded, so that `parse_instruction` is the whole of `cInstructionParser::parse`. An
-- embedded instruction is parsed, as by the program, from its opening bracket on to the end of the
-- outer instruction, which a parameter keeps in `behind`. Handler.Frames and Handler.Texts follow
-- an `eth` instruction from its text to its frame, and Handler.Keeps follows a parameter through
-- the handlers that do not know it. Tests.Vectors has the packets that the unit test of
-- src/compiler/instructionparser.cpp expects.
--
-- Not modelled are src/compiler/lldpparser.cpp with the powers that src/packets/lldppacket.hpp
-- converts from floating point numbers, the handlers of STP, IGMP and LLDP, and of UDP, TCP, VXLAN
-- and GRE over IPv6, which are arguments of Handler.Compile, parameter values that are floating
-- point numbers or UUIDs, capture files, and the engine, whose work is input and output. Embedded
-- packets are handed on as their bytes, since the program never frees them.
--
-- Errors of FormatException are values of `Error`; a BUG_ON that fires is the error `bug`. The
-- loops over scripts and parameter lists go on fuel, one more than the characters of the text, and
-- each round takes a character at least. All other loops are structural recursion on lists of
-- bytes, tags or packets, and need no fuel. The static counter of identifications is handed in and
-- out. Embedded instructions are parsed on fuel 8, the depth that the program allows.
pub mod Common
pub mod Address
pub mod Checksum
pub mod Ethernet
pub mod Handler
pub mod Instruction
pub mod Ip
pub mod Params
pub mod Script
pub mod Syntax
pub mod Text
pub mod Timing
pub mod Transport
pub mod Tests
