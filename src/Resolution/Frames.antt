-- ===== src/Resolution/Frames.antt =====
-- An ARP frame read by `handle_arp` of kernel/net_proto.cc, and what its receiver learns.
use networking_p.Prelude.{ℕ, ◌+◌, ◌^◌, ◌<◌, ◌≡◌, refl, ◌∙◌, true, some, [], length, arith}
use networking_p.Address.{Ip, ip_equals, Mac, ip_equals_refl}
use networking_p.NetStats.{NetStatCounter}
use networking_p.ArpCache.{ArpCache, arp_cache_insert, arp_cache_lookup}
use networking_p.ArpCache.Valid.{IsValid}
use networking_p.ArpCache.Mapping.{resolve-insert_entry}
use networking_p.World.{World, count, Invoke}
use networking_p.VirtioNet.Api.{net_send_raw}
use networking_p.Wire.{
  bswap16, EthernetHeader, ArpPacket, load_eth, load_arp, eth_bytes, arp_bytes, eth_size, arp_size,
  eth_type_arp, eth_type_ipv4,
}
use networking_p.Wire.Fields.{load_eth-eth_bytes, load_arp-arp_bytes, bswap16-bswap16}
use networking_p.NetProto.Send.{
  arp_frame, count_if, arp_op_request, arp_op_reply, arp_htype_ethernet,
}
use networking_p.NetProto.Handle.{
  done, mac_is_for_me, arp_learn, arp_answer, handle_arp, net_handle_frame,
}

abbrev pub frame_len : ℕ
frame_len = eth_size + arp_size

module _ (x : World) (dst : Mac) (oper : ℕ) (tha : Mac) (tpa : Ip) where
  abbrev eth : EthernetHeader
  eth = record { dst = dst; src = x.my_mac; ether_type = bswap16 eth_type_arp }

  abbrev arp : ArpPacket
  arp = record {
    htype = bswap16 arp_htype_ethernet;
    ptype = bswap16 eth_type_ipv4;
    hlen = 6;
    plen = 4;
    oper = bswap16 oper;
    sha = x.my_mac;
    spa = x.my_ip;
    tha = tha;
    tpa = tpa;
  }

  frame_eth : load_eth (arp_frame x dst oper tha tpa) 0 ≡ eth
  unfolding arp_frame
  frame_eth = load_eth-eth_bytes eth (arp_bytes arp)

  frame_arp : load_arp (arp_frame x dst oper tha tpa) eth_size ≡ arp
  unfolding arp_frame eth_bytes arp_bytes
  frame_arp = load_arp-arp_bytes eth arp []

  pub length-arp_frame : length (arp_frame x dst oper tha tpa) ≡ frame_len
  unfolding arp_frame eth_bytes arp_bytes
  length-arp_frame = refl

-- What `y` knows after an ARP packet of `x`.
abbrev pub learned : World → World → World
learned y x = record y { arp = arp_cache_insert y.arp (some x.my_ip) (some x.my_mac) }

learn-frame :
    (x y : World) (dst : Mac) (oper : ℕ) (tha : Mac) (tpa : Ip)
    → arp_learn y (arp x dst oper tha tpa) ≡ learned y x
unfolding arp_learn
learn-frame x y dst oper tha tpa =
    rw
      (
        bswap16-bswap16 arp_htype_ethernet (omega arith),
        bswap16-bswap16 eth_type_ipv4 (omega arith),
      )
      refl

pub handle-frame :
    (invoke : Invoke) (x y : World) (dst : Mac) (oper : ℕ) (tha : Mac) (tpa : Ip)
    → mac_is_for_me y dst ≡ true
    → net_handle_frame invoke y (arp_frame x dst oper tha tpa) frame_len
      ≡ done (arp_answer (learned y x) (eth x dst oper tha tpa) (arp x dst oper tha tpa))
unfolding net_handle_frame handle_arp
handle-frame invoke x y dst oper tha tpa mine =
    let kind : bswap16 (bswap16 eth_type_arp) ≡ eth_type_arp =
      bswap16-bswap16 eth_type_arp (omega arith) in
    rw
      (
        frame_eth x dst oper tha tpa,
        frame_arp x dst oper tha tpa,
        mine,
        kind,
        learn-frame x y dst oper tha tpa,
      )
      refl

pub answer-request :
    (x y : World) (dst tha : Mac) (w : World)
    → w.my_ip ≡ y.my_ip
    → arp_answer w (eth x dst arp_op_request tha y.my_ip) (arp x dst arp_op_request tha y.my_ip) ≡ (
        let w1 = count w NetStatCounter.arp_rx in
        let (sent, w2) =
          net_send_raw w1 (some (arp_frame w1 x.my_mac arp_op_reply x.my_mac x.my_ip)) frame_len in
        count_if sent w2 NetStatCounter.arp_tx)
unfolding arp_answer
answer-request x y dst tha w e =
    let op : bswap16 (bswap16 arp_op_request) ≡ arp_op_request = bswap16-bswap16 _ (omega arith) in
    let mine : ip_equals y.my_ip w.my_ip ≡ true = rw e (ip_equals_refl y.my_ip) in simp (op, mine)

pub answer-reply :
    (x : World) (dst tha : Mac) (tpa : Ip) (w : World)
    → arp_answer w (eth x dst arp_op_reply tha tpa) (arp x dst arp_op_reply tha tpa)
      ≡ count w NetStatCounter.arp_rx
unfolding arp_answer
answer-reply x dst tha tpa w =
    let op : bswap16 (bswap16 arp_op_reply) ≡ arp_op_reply = bswap16-bswap16 _ (omega arith) in
    simp op

-- A cache that just learned an address finds it.
pub lookup-insert :
    (c : ArpCache) (ip : Ip) (mac : Mac)
    → IsValid c
    → c.clock + 1 < 2 ^ 64
    → (arp_cache_lookup (arp_cache_insert c (some ip) (some mac)) (some ip) true).0 ≡ some mac
unfolding arp_cache_lookup arp_cache_insert
lookup-insert c ip mac v tick = resolve-insert_entry ip mac ip v tick ∙ rw (ip_equals_refl ip) refl
