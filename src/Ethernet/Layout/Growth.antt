-- ===== src/Ethernet/Layout/Growth.antt =====
-- A sequence of calls of `appendPayload` (src/packets/ethernetpacket.cpp) puts their bytes one behind the
-- other.
use tcppump.Common.{
  ℕ, ◌+◌, ◌≤◌, ◌≡◌, refl, subst, arith, ◌++◌, append_assoc, length, drop, Bytes, Result, ok, ◌>>=◌,
}
use tcppump.Ethernet.{EthernetPacket, append_payload}
use tcppump.Ethernet.Layout.{Parts, HasParts, header_length}
use tcppump.Ethernet.Layout.Payload.{append_payload-parts}

-- A packet whose payload has grown.
pub record Grown (max : ℕ) (r : Result EthernetPacket) (f : Parts) (more : Bytes) : Type 0 where
  pub result : EthernetPacket
  pub slack : Bytes
  pub returned : r ≡ ok result
  pub max_is : result.packet_max_length ≡ max
  pub parts : HasParts result (record f { payload = f.payload ++ more; slack = slack })

append_payload-max :
    (p q : EthernetPacket) (bytes : Bytes)
    → append_payload p bytes ≡ ok q
    → q.packet_max_length ≡ p.packet_max_length
unfolding append_payload
append_payload-max p q bytes e = ground arith

pub append_payload-Grown :
    {p : EthernetPacket} {f : Parts} (h : HasParts p f) (bytes : Bytes)
    → header_length f + length f.payload + length bytes ≤ p.packet_max_length
    → Grown p.packet_max_length (append_payload p bytes) f bytes
append_payload-Grown {p} {f} h bytes room =
    let put = append_payload-parts h bytes room in
    record {
      result = put.result;
      slack = drop (length bytes) f.slack;
      returned = put.returned;
      max_is = append_payload-max p put.result bytes put.returned;
      parts = put.parts;
    }

-- One thing behind the other.
pub Grown-append :
    {f : Parts} {r : Result EthernetPacket} {max : ℕ} (first second : Bytes)
    (next : EthernetPacket → Result EthernetPacket)
    → Grown max r f first
    → ((q : EthernetPacket) (slack : Bytes)
        → q.packet_max_length ≡ max
        → HasParts q (record f { payload = f.payload ++ first; slack = slack })
        → Grown max (next q) (record f { payload = f.payload ++ first; slack = slack }) second)
    → Grown max (r >>= next) f (first ++ second)
Grown-append {f} {r} {max} first second next g k =
    let n = k g.result g.slack g.max_is g.parts in
    record {
      result = n.result;
      slack = n.slack;
      returned = rw (g.returned, n.returned) refl;
      max_is = n.max_is;
      parts =
          subst (λ b. HasParts n.result (record f { payload = b; slack = n.slack }))
            (append_assoc f.payload first second) n.parts;
    }
