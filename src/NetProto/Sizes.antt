-- ===== src/NetProto/Sizes.antt =====
-- The size checks of `net_send_ipv4` in kernel/net_proto.cc, whose sums are `size_t`.
use networking_p.Prelude.{
  ℕ, ◌+◌, ◌≡◌, refl, ◌∙◌, Bool, true, false, ltb, if◌then◌else◌, Option, none, some, List,
  Bool-cases, inl, inr, arith,
}
use networking_p.Prelude.Words.{u64}
use networking_p.Address.{Ip, Mac}
use networking_p.NetStats.{NetStatCounter}
use networking_p.ArpCache.{arp_cache_lookup}
use networking_p.World.{World}
use networking_p.Wire.{eth_size, ip_size}
use networking_p.VirtioNet.Api.{net_send_raw}
use networking_p.NetProto.Send.{
  ipv4_frame, count_if, net_send_arp_request, send_resolved, send_sized, net_send_ipv4,
}

-- What `net_send_ipv4` promises, on numbers without wrap: payloads of at most 2014 bytes.
unfoldable pub send_promised : World → Ip → ℕ → List ℕ → ℕ → Option Mac → Bool × World
send_promised w dst_ip protocol payload n none = if ltb 2014 n then (false, w) else (
  false,
  (net_send_arp_request (record w { arp = (arp_cache_lookup w.arp (some dst_ip) true).1 })
      (some dst_ip)).1,
)
send_promised w dst_ip protocol payload n (some mac) =
    if ltb 2014 n
    then (false, w)
    else (let w1 = record w { arp = (arp_cache_lookup w.arp (some dst_ip) true).1 } in
        let (sent, w2) =
          net_send_raw w1 (some (ipv4_frame w1 mac dst_ip protocol payload n))
            (eth_size + (ip_size + n)) in
        (sent, count_if sent w2 NetStatCounter.ipv4_tx))

module _ (w : World) (dst_ip : Ip) (protocol : ℕ) (payload : List ℕ) (n : ℕ) where
  too_large : ltb 2014 n ≡ true → send_sized w dst_ip protocol payload n ≡ (false, w)
  unfolding send_sized
  too_large large = ground arith

  in_range :
      ltb 2014 n ≡ false
      → send_sized w dst_ip protocol payload n ≡ send_resolved w dst_ip protocol payload n
  unfolding send_sized
  in_range small = ground arith

  resolved_none :
      (arp_cache_lookup w.arp (some dst_ip) true).0 ≡ none
      → ltb 2014 n ≡ false
      → send_resolved w dst_ip protocol payload n ≡ send_promised w dst_ip protocol payload n none
  unfolding send_resolved send_promised
  resolved_none miss small = rw (send_resolved, miss, small) refl

  resolved_some :
      (mac : Mac)
      → (arp_cache_lookup w.arp (some dst_ip) true).0 ≡ some mac
      → ltb 2014 n ≡ false
      → send_resolved w dst_ip protocol payload n
        ≡ send_promised w dst_ip protocol payload n (some mac)
  unfolding send_resolved send_promised
  resolved_some mac hit small =
      let len : u64 (eth_size + u64 (ip_size + n)) ≡ eth_size + (ip_size + n) = ground arith in
      rw (send_resolved, hit, small, len) refl

  promised_large :
      (o : Option Mac)
      → ltb 2014 n ≡ true
      → send_promised w dst_ip protocol payload n o ≡ (false, w)
  unfolding send_promised
  promised_large none large = rw large refl
  promised_large (some mac) large = rw large refl

  promised_resolved :
      (o : Option Mac)
      → (arp_cache_lookup w.arp (some dst_ip) true).0 ≡ o
      → ltb 2014 n ≡ false
      → send_resolved w dst_ip protocol payload n ≡ send_promised w dst_ip protocol payload n o
  promised_resolved none = resolved_none
  promised_resolved (some mac) = resolved_some mac

-- For every payload length, however large, `net_send_ipv4` fails and changes nothing beyond 2014
-- bytes; up to there it sends the packet in one frame if the address resolves, and otherwise fails
-- and sends an ARP request for the address.
pub net_send_ipv4-send_promised :
    (w : World) (dst_ip : Ip) (protocol : ℕ) (payload : List ℕ) (n : ℕ)
    → net_send_ipv4 w (some dst_ip) protocol (some payload) n
      ≡ send_promised w dst_ip protocol payload n (arp_cache_lookup w.arp (some dst_ip) true).0
unfolding net_send_ipv4
net_send_ipv4-send_promised w dst_ip protocol payload n = elim (Bool-cases (ltb 2014 n)) [
  | inl large ↦
      too_large w dst_ip protocol payload n large
      ∙ rw (promised_large w dst_ip protocol payload n _ large) refl
  | inr small ↦
      in_range w dst_ip protocol payload n small
      ∙ promised_resolved w dst_ip protocol payload n _ refl small
]
