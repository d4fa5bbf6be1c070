-- ===== src/Syntax/Link.antt =====
-- The names of parameters in src/compiler/syntax.hpp: raw, eth, arp and stp.
use tcppump.Common.{Bytes}
use tcppump.Text.{codes}

abbrev pub par_raw_byte : Bytes
par_raw_byte = codes "byte"

abbrev pub par_raw_be16 : Bytes
par_raw_be16 = codes "be16"

abbrev pub par_raw_be32 : Bytes
par_raw_be32 = codes "be32"

abbrev pub par_raw_be64 : Bytes
par_raw_be64 = codes "be64"

abbrev pub par_raw_le16 : Bytes
par_raw_le16 = codes "le16"

abbrev pub par_raw_le32 : Bytes
par_raw_le32 = codes "le32"

abbrev pub par_raw_le64 : Bytes
par_raw_le64 = codes "le64"

abbrev pub par_raw_ip4 : Bytes
par_raw_ip4 = codes "ip4"

abbrev pub par_raw_ip6 : Bytes
par_raw_ip6 = codes "ip6"

abbrev pub par_raw_mac : Bytes
par_raw_mac = codes "mac"

abbrev pub par_raw_stream : Bytes
par_raw_stream = codes "stream"

abbrev pub par_eth_smac : Bytes
par_eth_smac = codes "smac"

abbrev pub par_eth_dmac : Bytes
par_eth_dmac = codes "dmac"

abbrev pub par_eth_dsap : Bytes
par_eth_dsap = codes "dsap"

abbrev pub par_eth_ssap : Bytes
par_eth_ssap = codes "ssap"

abbrev pub par_eth_control : Bytes
par_eth_control = codes "control"

abbrev pub par_eth_oui : Bytes
par_eth_oui = codes "oui"

abbrev pub par_eth_protocol : Bytes
par_eth_protocol = codes "protocol"

abbrev pub par_eth_payload : Bytes
par_eth_payload = codes "payload"

abbrev pub par_eth_ethertype : Bytes
par_eth_ethertype = codes "ethertype"

abbrev pub par_eth_vid : Bytes
par_eth_vid = codes "vid"

abbrev pub par_eth_vtype : Bytes
par_eth_vtype = codes "vtype"

abbrev pub par_eth_prio : Bytes
par_eth_prio = codes "prio"

abbrev pub par_eth_dei : Bytes
par_eth_dei = codes "dei"

abbrev pub par_arp_op : Bytes
par_arp_op = codes "op"

abbrev pub par_stp_rbprio : Bytes
par_stp_rbprio = codes "rbprio"

abbrev pub par_stp_rbidext : Bytes
par_stp_rbidext = codes "rbidext"

abbrev pub par_stp_rbmac : Bytes
par_stp_rbmac = codes "rbmac"

abbrev pub par_stp_bprio : Bytes
par_stp_bprio = codes "bprio"

abbrev pub par_stp_bidext : Bytes
par_stp_bidext = codes "bidext"

abbrev pub par_stp_bmac : Bytes
par_stp_bmac = codes "bmac"

abbrev pub par_stp_pprio : Bytes
par_stp_pprio = codes "pprio"

abbrev pub par_stp_pnum : Bytes
par_stp_pnum = codes "pnum"

abbrev pub par_stp_msgage : Bytes
par_stp_msgage = codes "msgage"

abbrev pub par_stp_maxage : Bytes
par_stp_maxage = codes "maxage"

abbrev pub par_stp_hello : Bytes
par_stp_hello = codes "hello"

abbrev pub par_stp_delay : Bytes
par_stp_delay = codes "delay"

abbrev pub par_stp_topochange : Bytes
par_stp_topochange = codes "topochange"

abbrev pub par_stp_topochangeack : Bytes
par_stp_topochangeack = codes "topochangeack"

abbrev pub par_stp_rpathcost : Bytes
par_stp_rpathcost = codes "rpathcost"

abbrev pub par_stp_portrole : Bytes
par_stp_portrole = codes "portrole"

abbrev pub par_stp_proposal : Bytes
par_stp_proposal = codes "proposal"

abbrev pub par_stp_learning : Bytes
par_stp_learning = codes "learning"

abbrev pub par_stp_forwarding : Bytes
par_stp_forwarding = codes "forwarding"

abbrev pub par_stp_agreement : Bytes
par_stp_agreement = codes "agreement"
