-- ===== src/Ip/Fragments.antt =====
-- `cIPPacket::v4compile` of src/packets/ippacket.cpp: a datagram is cut into fragments, each in an
-- Ethernet packet of its own. A size_t wraps at 2^64, an unsigned at 2^32.
pub mod Count
pub mod Room
pub mod One
pub mod Rest
pub mod Loop
pub mod Whole
pub mod Packets
pub mod Delivery
use tcppump.Common.{
  ℕ, suc, zero, ◌+◌, ◌-◌, ◌*◌, ◌/◌, ◌%◌, ◌^◌, Bool, true, false, ◌&&◌, not, List, [], ◌∷◌, ◌++◌,
  Option, none, some, ltb, ◌==◌, if◌then◌else◌, length, take, drop, Bytes, Result, ok, err, bug,
  ex_par_range, ◌>>=◌,
}
use tcppump.Ethernet.{EthernetPacket, set_payload, append_payload, copy_packet}
use tcppump.Ip.Packet.{IpPacket, get_header_length, address_multicast}
use tcppump.Ip.Header.{HeaderArgs, compile_header}

-- `fragCnt`, from the MTU, the length of the IP header and that of the data behind it.
unfoldable pub fragment_count : ℕ → ℕ → ℕ → ℕ
fragment_count mtu header total =
    ((total + 2 ^ 64 - 1) % 2 ^ 64 / ((mtu + 2 ^ 64 - header) % 2 ^ 64) % 2 ^ 32 + 1) % 2 ^ 32

-- What stays the same while the fragments are compiled. `packet_count` is `m_packets.size ()`.
pub record Job : Type 0 where
  pub ip : IpPacket
  pub protocol : ℕ
  pub id : ℕ
  pub frag_cnt : ℕ
  pub packet_count : ℕ
  pub l4_header : Bytes

-- `fragLen` of fragment `n`, with `remaining` bytes of data to go.
unfoldable pub fragment_length : Job → ℕ → ℕ → ℕ
fragment_length j n remaining =
    let header = get_header_length j.ip in
    let room = (j.ip.mtu + 2 ^ 64 - header) % 2 ^ 64 in
    let fits = if ltb j.ip.mtu (remaining + header) then room else remaining in
    if n + 1 == j.packet_count then fits else fits / 8 * 8

abbrev pub remaining : Job → ℕ → Bytes → ℕ
remaining j n payload = if n == 0 then length j.l4_header + length payload else length payload

abbrev pub header_args : Job → ℕ → ℕ → ℕ → HeaderArgs
header_args j n offset frag_len = record {
  src = j.ip.src_ip;
  dst = j.ip.dst_ip;
  time_to_live = j.ip.ttl;
  proto = j.protocol;
  dscp = j.ip.dscp;
  ecn = j.ip.ecn;
  df = j.ip.dont_fragment;
  mf = not (n + 1 == j.frag_cnt);
  offset = offset;
  hdr_len = get_header_length j.ip;
  total_len = (get_header_length j.ip + frag_len) % 2 ^ 16;
  id = j.id;
  with_router_alert = j.ip.has_router_alert_option;
  manual_chksum = if j.ip.has_chksum then some j.ip.chksum else none;
}

-- `if (len && bytes) p.appendPayload (bytes, len)`.
abbrev pub append_some : EthernetPacket → Bytes → ℕ → Bytes → Result EthernetPacket
append_some p whole count part =
    if length whole == 0 then ok p else append_payload p (take count part)

-- The data of the first fragment. A fragment that is shorter than the layer 4 header would make
-- `fragLen -= l4headerLen` wrap and copy far beyond all memory: the program does not survive it.
unfoldable pub put_first : Job → ℕ → Bytes → EthernetPacket → Result EthernetPacket
put_first j frag_len payload p =
    if ltb frag_len (length j.l4_header)
    then err bug
    else append_some p j.l4_header (length j.l4_header) j.l4_header >>= λ q.
        append_some q payload (frag_len - length j.l4_header) payload

unfoldable pub put_data : Job → ℕ → ℕ → Bytes → EthernetPacket → Result EthernetPacket
put_data j n frag_len payload p =
    if n == 0 then put_first j frag_len payload p else append_payload p (take frag_len payload)

-- The packet of fragment `n`: IP header and data.
unfoldable pub put_fragment : Job → ℕ → ℕ → Bytes → EthernetPacket → Result EthernetPacket
put_fragment j n offset payload p =
    let frag_len = fragment_length j n (remaining j n payload) in
    compile_header (header_args j n offset frag_len) >>= λ header.
    set_payload p header >>= λ q. put_data j n frag_len payload q

-- How far the payload pointer moves.
abbrev pub consumed : Job → ℕ → ℕ → ℕ
consumed j n frag_len = if n == 0 then frag_len - length j.l4_header else frag_len

-- The loop over `m_packets`.
unfoldable pub fragment_loop :
    Job → ℕ → ℕ → Bytes → List EthernetPacket → Result (List EthernetPacket)
fragment_loop j n offset payload [] = ok []
fragment_loop j n offset payload (p ∷ ps) =
    let frag_len = fragment_length j n (remaining j n payload) in
    put_fragment j n offset payload p >>= λ q.
    fragment_loop j (n + 1) (offset + frag_len) (drop (consumed j n frag_len) payload) ps >>= λ qs.
    ok (q ∷ qs)

-- `fresh k` is the memory that the copy constructor gets.
unfoldable pub copies : (ℕ → Bytes) → ℕ → EthernetPacket → List EthernetPacket
copies fresh zero p = []
copies fresh (suc k) p = copy_packet (fresh k) p ∷ copies fresh k p

-- The packets that come out of the loop, as the first one and the others.
abbrev pub store : IpPacket → List EthernetPacket → IpPacket
store ip [] = ip
store ip (p ∷ ps) = record ip { first = p; others = ps }

-- The identification of the datagram, and `nextIdentification` behind it.
abbrev pub identify : IpPacket → ℕ → ℕ → ℕ × ℕ
identify ip frag_cnt next =
    if ltb 1 frag_cnt && not ip.has_id
    then (next, (next + 1) % 2 ^ 16)
    else (ip.identification, next)

-- `next` is the static `nextIdentification`.
unfoldable pub v4compile : (ℕ → Bytes) → ℕ → IpPacket → ℕ → Bytes → Bytes → Result (IpPacket × ℕ)
v4compile fresh next ip protocol l4_header payload =
    let header = get_header_length ip in
    let total = length l4_header + length payload in
    let frag_cnt = fragment_count ip.mtu header total in
    if ltb 65535 (total + header)
    then err ex_par_range
    else if ltb ((ip.mtu + 2 ^ 64 - header) % 2 ^ 64) (length l4_header)
    then err bug
    else let first = address_multicast ip in
      let packets = first ∷ (ip.others ++ copies fresh (frag_cnt - 1) first) in
      let (id, next') = identify ip frag_cnt next in
      let job : Job = record {
        ip = ip;
        protocol = protocol;
        id = id;
        frag_cnt = frag_cnt;
        packet_count = length packets;
        l4_header = l4_header;
      } in
      fragment_loop job 0 0 payload packets >>= λ done. ok (store ip done, next')
