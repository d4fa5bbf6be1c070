-- ===== src/Ip/Fragments/Packets.antt =====
-- The packets of `v4compile` before its loop, and the loop over all of them.
use tcppump.Common.{
  ℕ, zero, suc, ◌+◌, ◌*◌, ◌≤◌, ◌<◌, ◌≡◌, refl, arith, if◌then◌else◌, Bool, true, false, List, [],
  ◌∷◌, length, take, All, Bytes,
}
use tcppump.Ethernet.{EthernetPacket, copy_packet, set_dest_mac}
use tcppump.Ethernet.Layout.Headers.{set_dest_mac-parts}
use tcppump.Ethernet.Layout.Copy.{copy_packet-parts}
use tcppump.Ip.Packet.{IpPacket, get_header_length, multicast_mac, is_multicast, address_multicast}
use tcppump.Ip.Fragments.{Job, fragment_loop, copies}
use tcppump.Ip.Fragments.Room.{TakesMtu}
use tcppump.Ip.Fragments.Rest.{Sends, data_room, data_units, IsCounted}
use tcppump.Ip.Fragments.Whole.{datagram, loop_single, loop_several}

length-multicast_mac : (ip : Bytes) → length (multicast_mac ip) ≡ 6
unfolding multicast_mac
length-multicast_mac [] = refl
length-multicast_mac (a ∷ []) = refl
length-multicast_mac (a ∷ b ∷ []) = refl
length-multicast_mac (a ∷ b ∷ c ∷ []) = refl
length-multicast_mac (a ∷ b ∷ c ∷ d ∷ []) = refl
length-multicast_mac (a ∷ b ∷ c ∷ d ∷ e ∷ ip) = refl

set_dest_mac-TakesMtu :
    {mtu : ℕ} {p : EthernetPacket}
    → TakesMtu mtu p
    → (mac : Bytes) → length mac ≡ 6
    → TakesMtu mtu (set_dest_mac p mac)
unfolding set_dest_mac
set_dest_mac-TakesMtu {mtu} {p} t mac size = record {
  parts = record t.parts { dest = mac };
  has = set_dest_mac-parts t.has mac size;
  room = t.room;
}

pub address_multicast-TakesMtu :
    (ip : IpPacket) → TakesMtu ip.mtu ip.first → TakesMtu ip.mtu (address_multicast ip)
unfolding address_multicast
address_multicast-TakesMtu ip t =
    let multicast =
      set_dest_mac-TakesMtu t (multicast_mac ip.dst_ip) (length-multicast_mac ip.dst_ip) in
    if_both ip.first.has_dmac t (if_both (is_multicast ip.dst_ip) multicast t)
  where
    if_both :
        (b : Bool) {p q : EthernetPacket}
        → TakesMtu ip.mtu p
        → TakesMtu ip.mtu q
        → TakesMtu ip.mtu (if b then p else q)
    if_both true first second = first
    if_both false first second = second

pub address_multicast-max :
    (ip : IpPacket) → (address_multicast ip).packet_max_length ≡ ip.first.packet_max_length
unfolding address_multicast set_dest_mac
address_multicast-max ip = ground arith

copy_packet-TakesMtu :
    {mtu : ℕ} {p : EthernetPacket} (memory : Bytes)
    → TakesMtu mtu p
    → p.packet_max_length ≤ length memory
    → TakesMtu mtu (copy_packet memory p)
unfolding copy_packet
copy_packet-TakesMtu {mtu} {p} memory t enough = record {
  parts = _;
  has = copy_packet-parts memory t.has enough;
  room = t.room;
}

pub copies-TakesMtu :
    {mtu : ℕ} {p : EthernetPacket} (fresh : ℕ → Bytes) (k : ℕ)
    → TakesMtu mtu p
    → ((i : ℕ) → p.packet_max_length ≤ length (fresh i))
    → All (TakesMtu mtu) (copies fresh k p)
unfolding copies
copies-TakesMtu fresh zero t enough = tt
copies-TakesMtu fresh (suc k) t enough =
    (copy_packet-TakesMtu (fresh k) t (enough k), copies-TakesMtu fresh k t enough)

pub length-copies : (fresh : ℕ → Bytes) (k : ℕ) (p : EthernetPacket) → length (copies fresh k p) ≡ k
unfolding copies
length-copies fresh zero p = refl
length-copies fresh (suc k) p = omega (arith, length-copies fresh k p)

pub fragment_loop-Sends :
    (j : Job) (k : ℕ) (payload : Bytes) (p : EthernetPacket) (ps : List EthernetPacket)
    → IsCounted j
    → TakesMtu j.ip.mtu p
    → All (TakesMtu j.ip.mtu) ps
    → length ps ≡ k
    → suc k ≡ j.frag_cnt
    → length j.l4_header ≤ data_units j.ip
    → k * data_room j.ip < length j.l4_header + length payload
    → get_header_length j.ip + (length j.l4_header + length payload) ≤ 65535
    → Sends
        (fragment_loop j 0 0 payload (p ∷ ps))
        0
        (take (k * data_units j.ip + data_room j.ip) (datagram j payload))
fragment_loop-Sends j zero payload p [] c t ts count at l4 more small =
    loop_single j payload p c t at (omega arith) small
fragment_loop-Sends j (suc k) payload p (q ∷ qs) c t ts count at l4 more small =
    loop_several j k payload p (q ∷ qs) c t ts count at l4 more small
fragment_loop-Sends j (suc k) payload p [] c t ts count at l4 more small = absurd (omega arith)
fragment_loop-Sends j zero payload p (q ∷ qs) c t ts count at l4 more small = absurd (omega arith)
