-- ===== src/Syntax/Net.antt =====
-- The names of parameters in src/compiler/syntax.hpp: IP and what stands on it.
use tcppump.Common.{Bytes}
use tcppump.Text.{codes}

abbrev pub par_ip_dscp : Bytes
par_ip_dscp = codes "dscp"

abbrev pub par_ip_ecn : Bytes
par_ip_ecn = codes "ecn"

abbrev pub par_ip_ttl : Bytes
par_ip_ttl = codes "ttl"

abbrev pub par_ip_dip : Bytes
par_ip_dip = codes "dip"

abbrev pub par_ip_sip : Bytes
par_ip_sip = codes "sip"

abbrev pub par_ip_protocol : Bytes
par_ip_protocol = codes "protocol"

abbrev pub par_ip_payload : Bytes
par_ip_payload = codes "payload"

abbrev pub par_ip4_id : Bytes
par_ip4_id = codes "id"

abbrev pub par_ip4_df : Bytes
par_ip4_df = codes "df"

abbrev pub par_ip4_chksum : Bytes
par_ip4_chksum = codes "hchksum"

abbrev pub par_ip6_fl : Bytes
par_ip6_fl = codes "fl"

abbrev pub par_udp_sport : Bytes
par_udp_sport = codes "sport"

abbrev pub par_udp_dport : Bytes
par_udp_dport = codes "dport"

abbrev pub par_udp_payload : Bytes
par_udp_payload = codes "payload"

abbrev pub par_udp_chksum : Bytes
par_udp_chksum = codes "chksum"

abbrev pub par_vrrp_vrip : Bytes
par_vrrp_vrip = codes "vrip"

abbrev pub par_vrrp_vrid : Bytes
par_vrrp_vrid = codes "vrid"

abbrev pub par_vrrp_vrprio : Bytes
par_vrrp_vrprio = codes "vrprio"

abbrev pub par_vrrp_type : Bytes
par_vrrp_type = codes "type"

abbrev pub par_vrrp_aint : Bytes
par_vrrp_aint = codes "aint"

abbrev pub par_vrrp_chksum : Bytes
par_vrrp_chksum = codes "chksum"

abbrev pub par_igmp_s : Bytes
par_igmp_s = codes "s"

abbrev pub par_igmp_qrv : Bytes
par_igmp_qrv = codes "qrv"

abbrev pub par_igmp_qqic : Bytes
par_igmp_qqic = codes "qqic"

abbrev pub par_igmp_time : Bytes
par_igmp_time = codes "time"

abbrev pub par_igmp_rsip : Bytes
par_igmp_rsip = codes "rsip"

abbrev pub par_igmp_group : Bytes
par_igmp_group = codes "group"

abbrev pub par_igmp_type : Bytes
par_igmp_type = codes "type"

abbrev pub par_icmp4_type : Bytes
par_icmp4_type = codes "type"

abbrev pub par_icmp4_code : Bytes
par_icmp4_code = codes "code"

abbrev pub par_icmp4_payload : Bytes
par_icmp4_payload = codes "payload"

abbrev pub par_icmp4_chksum : Bytes
par_icmp4_chksum = codes "chksum"

abbrev pub par_icmp4_gw : Bytes
par_icmp4_gw = codes "gw"

abbrev pub par_icmp4_id : Bytes
par_icmp4_id = codes "id"

abbrev pub par_icmp4_seq : Bytes
par_icmp4_seq = codes "seq"

abbrev pub par_tcp_sport : Bytes
par_tcp_sport = codes "sport"

abbrev pub par_tcp_dport : Bytes
par_tcp_dport = codes "dport"

abbrev pub par_tcp_seq : Bytes
par_tcp_seq = codes "seq"

abbrev pub par_tcp_ack : Bytes
par_tcp_ack = codes "ack"

abbrev pub par_tcp_win : Bytes
par_tcp_win = codes "win"

abbrev pub par_tcp_urgptr : Bytes
par_tcp_urgptr = codes "urgptr"

abbrev pub par_tcp_fin : Bytes
par_tcp_fin = codes "FIN"

abbrev pub par_tcp_syn : Bytes
par_tcp_syn = codes "SYN"

abbrev pub par_tcp_reset : Bytes
par_tcp_reset = codes "RESET"

abbrev pub par_tcp_push : Bytes
par_tcp_push = codes "PUSH"

abbrev pub par_tcp_ackflag : Bytes
par_tcp_ackflag = codes "ACK"

abbrev pub par_tcp_urgent : Bytes
par_tcp_urgent = codes "URGENT"

abbrev pub par_tcp_ecn : Bytes
par_tcp_ecn = codes "ECN"

abbrev pub par_tcp_cwr : Bytes
par_tcp_cwr = codes "CWR"

abbrev pub par_tcp_nonce : Bytes
par_tcp_nonce = codes "NONCE"

abbrev pub par_tcp_payload : Bytes
par_tcp_payload = codes "payload"

abbrev pub par_tcp_chksum : Bytes
par_tcp_chksum = codes "chksum"

abbrev pub par_vxlan_vni : Bytes
par_vxlan_vni = codes "vni"

abbrev pub par_vxlan_payload : Bytes
par_vxlan_payload = codes "payload"

abbrev pub par_gre_protocol : Bytes
par_gre_protocol = codes "protocol"

abbrev pub par_gre_key : Bytes
par_gre_key = codes "key"

abbrev pub par_gre_seq : Bytes
par_gre_seq = codes "seq"

abbrev pub par_gre_chksum : Bytes
par_gre_chksum = codes "chksum"

abbrev pub par_gre_payload : Bytes
par_gre_payload = codes "payload"
