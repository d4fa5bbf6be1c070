-- ===== src/Ethernet/Stp/Message.antt =====
-- The messages of the spanning tree protocols byte by byte, as IEEE 802.1D has them. This is no code of the
-- program but the specification of src/packets/stppacket.cpp.
use tcppump.Common.{ℕ, ◌+◌, ◌*◌, ◌/◌, ◌%◌, ◌^◌, ◌≡◌, refl, arith, [], ◌∷◌, ◌++◌, Bytes}
use tcppump.Ethernet.Stp.{ConfigPdu, bpdu_bytes, stp_flags, rstp_flags}

-- A bridge identifier (IEEE 802.1D, 9.2.5): four bits of priority, twelve bits of extension, and the MAC
-- address.
abbrev pub bridge : ℕ → ℕ → Bytes → Bytes
bridge prio ext mac = (prio % 16 * 16 + ext / 256 % 16) ∷ ext % 256 ∷ mac

-- A number of two bytes, the high one first.
abbrev pub two : ℕ → Bytes
two n = n / 256 % 256 ∷ n % 256 ∷ []

-- A port identifier (9.2.7): four bits of priority and twelve bits of number.
abbrev pub port : ℕ → ℕ → Bytes
port prio number = (prio % 16 * 16 + number / 256 % 16) ∷ number % 256 ∷ []

-- A configuration message (IEEE 802.1D, 9.3.1 and 9.3.3): protocol 0, version, type and flags, the root,
-- the cost of the path, the bridge, the port, the age
-- of the message, the maximum age, the hello time and the forward delay.
abbrev pub message : ConfigPdu → ℕ → ℕ → ℕ → Bytes
message c version type flags =
    0
    ∷ 0
    ∷ version
    ∷ type
    ∷ flags
    ∷ (bridge c.root_bridge_prio c.root_bridge_id c.root_bridge_mac
        ++ (c.path_cost / 16777216 % 256
            ∷ c.path_cost / 65536 % 256
            ∷ c.path_cost / 256 % 256
            ∷ c.path_cost % 256
            ∷ (bridge c.bridge_prio c.bridge_id_ext c.bridge_mac
                ++ (port c.port_prio c.port_number
                    ++ (two c.msg_age
                        ++ (two c.max_age ++ (two c.hello_time ++ two c.forward_delay)))))))

-- The flags of the configuration message: the acknowledgment in the highest bit, and the topology change
-- in the lowest.
abbrev pub config_flags : ℕ → ℕ
config_flags flags = flags / 32 % 2 * 128 + flags % 2

-- Those of the RSTP message, from the highest bit: acknowledgment, agreement, forwarding, learning, two
-- bits of port role, proposal and topology change.
abbrev pub rapid_flags : ℕ → ℕ → ℕ
rapid_flags flags role =
    flags / 32 % 2 * 128
    + flags / 16 % 2 * 64
    + flags / 8 % 2 * 32
    + flags / 4 % 2 * 16
    + role % 4 * 4
    + flags / 2 % 2 * 2
    + flags % 2

word_hi :
    (prio n : ℕ) → (prio % 16 * 2 ^ 12 + n % 2 ^ 12) / 256 % 256 ≡ prio % 16 * 16 + n / 256 % 16
word_hi prio n = omega arith

word_lo : (prio n : ℕ) → (prio % 16 * 2 ^ 12 + n % 2 ^ 12) % 256 ≡ n % 256
word_lo prio n = omega arith

port_hi :
    (prio n : ℕ)
    → (prio % 16 * 2 ^ 12 + n % 2 ^ 16 % 2 ^ 12) / 256 % 256 ≡ prio % 16 * 16 + n / 256 % 16
port_hi prio n = omega arith

port_lo : (prio n : ℕ) → (prio % 16 * 2 ^ 12 + n % 2 ^ 16 % 2 ^ 12) % 256 ≡ n % 256
port_lo prio n = omega arith

time_hi : (t : ℕ) → t % 2 ^ 16 / 256 % 256 ≡ t / 256 % 256
time_hi t = omega arith

time_lo : (t : ℕ) → t % 2 ^ 16 % 256 ≡ t % 256
time_lo t = omega arith

cost-bytes :
    (n : ℕ)
    → (n % 2 ^ 32 / 2 ^ 24 % 256 ≡ n / 16777216 % 256)
      × (n % 2 ^ 32 / 2 ^ 16 % 256 ≡ n / 65536 % 256)
      × (n % 2 ^ 32 / 2 ^ 8 % 256 ≡ n / 256 % 256)
      × (n % 2 ^ 32 % 256 ≡ n % 256)
cost-bytes n = (omega arith, omega arith, omega arith, omega arith)

pub bpdu_bytes-message :
    (c : ConfigPdu) (version type flags : ℕ)
    → bpdu_bytes c version type flags ≡ message c version type flags
unfolding bpdu_bytes
bpdu_bytes-message c version type flags =
    let (b3, b2, b1, b0) = cost-bytes c.path_cost in
    rw
      (
        word_hi c.root_bridge_prio c.root_bridge_id,
        word_lo c.root_bridge_prio c.root_bridge_id,
        b3,
        b2,
        b1,
        b0,
        word_hi c.bridge_prio c.bridge_id_ext,
        word_lo c.bridge_prio c.bridge_id_ext,
        port_hi c.port_prio c.port_number,
        port_lo c.port_prio c.port_number,
        time_hi c.msg_age,
        time_lo c.msg_age,
        time_hi c.max_age,
        time_lo c.max_age,
        time_hi c.hello_time,
        time_lo c.hello_time,
        time_hi c.forward_delay,
        time_lo c.forward_delay,
      )
      refl

pub stp_flags-config : (flags : ℕ) → stp_flags flags ≡ config_flags flags
unfolding stp_flags
stp_flags-config flags = omega arith

pub rstp_flags-rapid : (flags role : ℕ) → rstp_flags flags role ≡ rapid_flags flags role
unfolding rstp_flags stp_flags
rstp_flags-rapid flags role = omega arith
