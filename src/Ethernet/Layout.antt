-- ===== src/Ethernet/Layout.antt =====
-- What a frame in its buffer stands for: its parts, and what each operation does to them.
pub mod Headers
pub mod Payload
pub mod Growth
pub mod Copy
use tcppump.Common.{
  ℕ, ◌+◌, ◌*◌, ◌%◌, ◌^◌, ◌≤◌, ◌<◌, ◌≡◌, ap, ◌∙◌, sym, arith, [], ◌++◌, append_assoc, length,
  length-append, Bytes,
}
use tcppump.Ethernet.{EthernetPacket, frame}
use tcppump.Ethernet.Buffer.{slice-front}

-- The parts of a frame in their order; `slack` is the memory behind them.
pub record Parts : Type 0 where
  pub dest : Bytes
  pub src : Bytes
  pub tags : Bytes
  pub kind : Bytes
  pub llc : Bytes
  pub payload : Bytes
  pub slack : Bytes

-- What is in front of the payload.
abbrev pub header_length : Parts → ℕ
header_length f = 14 + length f.tags + length f.llc

abbrev pub content : Parts → Bytes
content f = f.dest ++ (f.src ++ (f.tags ++ (f.kind ++ (f.llc ++ f.payload))))

abbrev pub memory : Parts → Bytes
memory f = f.dest ++ (f.src ++ (f.tags ++ (f.kind ++ (f.llc ++ (f.payload ++ f.slack)))))

-- The packet's fields describe the parts `f`, which lie in its memory.
pub record HasParts (p : EthernetPacket) (f : Parts) : Type 0 where
  pub in_memory : p.packet ≡ memory f
  pub dest_size : length f.dest ≡ 6
  pub src_size : length f.src ≡ 6
  pub kind_size : length f.kind ≡ 2
  pub kind_at : p.p_ethertype_length ≡ 12 + length f.tags
  pub payload_at : p.p_payload ≡ header_length f
  pub payload_size : p.payload_length ≡ length f.payload
  pub llc_size : p.llc_header_length ≡ length f.llc
  pub fits : header_length f + length f.payload ≤ p.packet_max_length
  pub allocated : p.packet_max_length ≤ header_length f + length f.payload + length f.slack
  pub addressable : p.packet_max_length < 2 ^ 63

-- The parts in front of the type or length field, and those in front of the payload.
abbrev pub before_kind : Parts → Bytes
before_kind f = f.dest ++ (f.src ++ f.tags)

abbrev pub before_payload : Parts → Bytes
before_payload f = before_kind f ++ (f.kind ++ f.llc)

pub memory-kind :
    (f : Parts) → memory f ≡ before_kind f ++ (f.kind ++ (f.llc ++ (f.payload ++ f.slack)))
memory-kind f = simp append_assoc

pub memory-payload : (f : Parts) → memory f ≡ before_payload f ++ (f.payload ++ f.slack)
memory-payload f = simp append_assoc

pub length-before_kind :
    {p : EthernetPacket} {f : Parts} → HasParts p f → p.p_ethertype_length ≡ length (before_kind f)
length-before_kind {p} {f} h = omega (
  arith,
  h.kind_at,
  h.dest_size,
  h.src_size,
  length-append f.dest (f.src ++ f.tags),
  length-append f.src f.tags,
)

pub length-before_payload :
    {p : EthernetPacket} {f : Parts} → HasParts p f → p.p_payload ≡ length (before_payload f)
length-before_payload {p} {f} h = omega (
  arith,
  h.kind_at,
  h.payload_at,
  h.kind_size,
  length-before_kind h,
  length-append (before_kind f) (f.kind ++ f.llc),
  length-append f.kind f.llc,
)

pub memory-content : (f : Parts) → memory f ≡ content f ++ f.slack
memory-content f = simp append_assoc

pub length-content :
    (f : Parts)
    → length f.dest ≡ 6
    → length f.src ≡ 6
    → length f.kind ≡ 2
    → length (content f) ≡ header_length f + length f.payload
length-content f d s k = omega (
  arith,
  length-append f.dest (f.src ++ (f.tags ++ (f.kind ++ (f.llc ++ f.payload)))),
  length-append f.src (f.tags ++ (f.kind ++ (f.llc ++ f.payload))),
  length-append f.tags (f.kind ++ (f.llc ++ f.payload)),
  length-append f.kind (f.llc ++ f.payload),
  length-append f.llc f.payload,
)

-- The bytes that are sent are the parts, one behind the other, and nothing of the slack.
pub frame-content : {p : EthernetPacket} {f : Parts} → HasParts p f → frame p ≡ content f
unfolding frame
frame-content {p} {f} h =
    let whole = length-content f h.dest_size h.src_size h.kind_size in
    let size : (p.p_payload + p.payload_length) % 2 ^ 64 ≡ length (content f) =
      omega (arith, whole, h.payload_at, h.payload_size, h.fits, h.addressable) in
    ap (λ m. tcppump.Common.Memory.slice m 0 ((p.p_payload + p.payload_length) % 2 ^ 64))
      (h.in_memory ∙ memory-content f)
    ∙ slice-front (content f) f.slack _ size
