-- ===== src/Ethernet/Arp.antt =====
-- src/packets/arppacket.hpp and src/packets/arppacket.cpp.
use tcppump.Common.{
  ℕ, zero, suc, ◌/◌, ◌%◌, ◌≤◌, ◌≡◌, ◌≢◌, refl, Bool-cases, inl, inr, ap, ◌∙◌, arith, Bool, true,
  ◌&&◌, if◌then◌else◌, ◌==◌, [], ◌∷◌, ◌++◌, length, length-append, Bytes, be16, Result, ok,
}
use tcppump.Ethernet.{
  EthernetPacket, frame, set_mac_header, set_src_mac, set_dest_mac, set_type_length, set_payload,
}
use tcppump.Ethernet.Layout.{Parts, HasParts, frame-content}
use tcppump.Ethernet.Layout.Headers.{set_dest_mac-parts, set_src_mac-parts, set_type_length-parts}
use tcppump.Ethernet.Layout.Payload.{set_payload-parts}

abbrev pub ethertype_ipv4 : ℕ
ethertype_ipv4 = 0x0800

abbrev pub ethertype_arp : ℕ
ethertype_arp = 0x0806

-- `cMacAddress::isNull` of src/common/macaddress.hpp.
abbrev pub is_null : Bytes → Bool
is_null [] = true
is_null (b ∷ mac) = (b == 0) && is_null mac

abbrev pub null_mac : Bytes
null_mac = 0 ∷ 0 ∷ 0 ∷ 0 ∷ 0 ∷ 0 ∷ []

abbrev pub broadcast : Bytes
broadcast = 0xff ∷ 0xff ∷ 0xff ∷ 0xff ∷ 0xff ∷ 0xff ∷ []

-- The bytes of arp_t.
unfoldable pub arp_bytes : ℕ → Bytes → Bytes → Bytes → Bytes → Bytes
arp_bytes opcode src_mac src_ip dst_mac dst_ip =
    be16 1
    ++ (be16 ethertype_ipv4
        ++ (6 ∷ 4 ∷ be16 opcode ++ (src_mac ++ (src_ip ++ (dst_mac ++ dst_ip)))))

abbrev pub receiver_mac : Bytes → Bytes
receiver_mac dst_mac = if is_null dst_mac then broadcast else dst_mac

unfoldable pub set_all : EthernetPacket → ℕ → Bytes → Bytes → Bytes → Bytes → Result EthernetPacket
set_all p opcode src_mac src_ip dst_mac dst_ip =
    set_payload (set_type_length (set_mac_header p src_mac (receiver_mac dst_mac)) ethertype_arp)
      (arp_bytes opcode src_mac src_ip dst_mac dst_ip)

unfoldable pub who_has : EthernetPacket → Bytes → Bytes → Bytes → Result EthernetPacket
who_has p src_mac src_ip ip = set_all p 1 src_mac src_ip null_mac ip

unfoldable pub probe : EthernetPacket → Bytes → Bytes → Result EthernetPacket
probe p src_mac ip = set_all p 1 src_mac (0 ∷ 0 ∷ 0 ∷ 0 ∷ []) null_mac ip

unfoldable pub announce : EthernetPacket → Bytes → Bytes → Result EthernetPacket
announce p src_mac ip = set_all p 1 src_mac ip null_mac ip

length-arp_bytes :
    (opcode : ℕ) (src_mac src_ip dst_mac dst_ip : Bytes)
    → length src_mac ≡ 6
    → length src_ip ≡ 4
    → length dst_mac ≡ 6
    → length dst_ip ≡ 4
    → length (arp_bytes opcode src_mac src_ip dst_mac dst_ip) ≡ 28
unfolding arp_bytes
length-arp_bytes opcode src_mac src_ip dst_mac dst_ip sm si dm di = omega (
  arith,
  length-append src_mac (src_ip ++ (dst_mac ++ dst_ip)),
  length-append src_ip (dst_mac ++ dst_ip),
  length-append dst_mac dst_ip,
  sm,
  si,
  dm,
  di,
)

length-receiver_mac : (dst_mac : Bytes) → length dst_mac ≡ 6 → length (receiver_mac dst_mac) ≡ 6
length-receiver_mac dst_mac h = ground (arith, h)

abbrev zeros : ℕ → Bytes
zeros zero = []
zeros (suc n) = 0 ∷ zeros n

is_null-zeros : (mac : Bytes) → is_null mac ≡ true → mac ≡ zeros (length mac)
is_null-zeros [] h = refl
is_null-zeros (zero ∷ mac) h = ap (λ m. 0 ∷ m) (is_null-zeros mac h)
is_null-zeros (suc b ∷ mac) h = absurd (ground (arith, h))

null_mac-receiver :
    (dst_mac : Bytes)
    → dst_mac ≡ 0 ∷ 0 ∷ 0 ∷ 0 ∷ 0 ∷ 0 ∷ []
    → receiver_mac dst_mac ≡ 0xff ∷ 0xff ∷ 0xff ∷ 0xff ∷ 0xff ∷ 0xff ∷ []
null_mac-receiver dst_mac h = ap receiver_mac h

known-receiver :
    (dst_mac : Bytes)
    → length dst_mac ≡ 6
    → dst_mac ≢ 0 ∷ 0 ∷ 0 ∷ 0 ∷ 0 ∷ 0 ∷ []
    → receiver_mac dst_mac ≡ dst_mac
known-receiver dst_mac size known = elim (Bool-cases (is_null dst_mac)) [
  | inl k ↦ absurd (known (is_null-zeros dst_mac k ∙ ap zeros size))
  | inr k ↦ rw k refl
]

-- On a well-formed packet without VLAN tags and LLC header, whose buffer has room for 42 bytes,
-- `setAll` gives a frame of 42 bytes, byte by byte as RFC 826 has it: the destination, the source, the
-- type 0x0806, Ethernet and IPv4 with the sizes of their addresses, the operation in network order, the
-- addresses of the sender and those of the target. The destination is ff:ff:ff:ff:ff:ff if the target's
-- MAC address is 00:00:00:00:00:00, and the target's MAC address else.
pub set_all-frame :
    {p : EthernetPacket} {f : Parts} (h : HasParts p f) (opcode : ℕ)
    (src_mac src_ip dst_mac dst_ip : Bytes)
    → f.tags ≡ []
    → f.llc ≡ []
    → 42 ≤ p.packet_max_length
    → length src_mac ≡ 6
    → length src_ip ≡ 4
    → length dst_mac ≡ 6
    → length dst_ip ≡ 4
    → (q : EthernetPacket) × (to : Bytes) × (set_all p opcode src_mac src_ip dst_mac dst_ip ≡ ok q)
      × (frame q
          ≡ to
            ++ (src_mac
                ++ (8
                    ∷ 6
                    ∷ 0
                    ∷ 1
                    ∷ 8
                    ∷ 0
                    ∷ 6
                    ∷ 4
                    ∷ opcode / 256 % 256
                    ∷ opcode % 256
                    ∷ (src_mac ++ (src_ip ++ (dst_mac ++ dst_ip))))))
      × (dst_mac ≡ 0 ∷ 0 ∷ 0 ∷ 0 ∷ 0 ∷ 0 ∷ [] → to ≡ 0xff ∷ 0xff ∷ 0xff ∷ 0xff ∷ 0xff ∷ 0xff ∷ [])
      × (dst_mac ≢ 0 ∷ 0 ∷ 0 ∷ 0 ∷ 0 ∷ 0 ∷ [] → to ≡ dst_mac)
unfolding set_all set_mac_header set_dest_mac set_src_mac set_type_length arp_bytes
set_all-frame {p} {f} h opcode src_mac src_ip dst_mac dst_ip no_tags no_llc room sm si dm di =
    let addressed =
      set_dest_mac-parts (set_src_mac-parts h src_mac sm) (receiver_mac dst_mac)
        (length-receiver_mac dst_mac dm) in
    let typed = set_type_length-parts addressed ethertype_arp in
    let bytes = arp_bytes opcode src_mac src_ip dst_mac dst_ip in
    let size = length-arp_bytes opcode src_mac src_ip dst_mac dst_ip sm si dm di in
    let put =
      set_payload-parts typed bytes
        (omega (arith, size, room, ap length no_tags, ap length no_llc)) in
    (
      put.result,
      receiver_mac dst_mac,
      put.returned,
      frame-content put.parts ∙ rw (no_tags, no_llc),
      null_mac-receiver dst_mac,
      known-receiver dst_mac dm,
    )
