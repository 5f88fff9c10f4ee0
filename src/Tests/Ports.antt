-- ===== src/Tests/Ports.antt =====
-- Runs of kernel/udp.cc and of the frame handler at concrete inputs.
use networking_p.Prelude.{
  some, ◌∷◌, [], ℕ, ◌≡◌, true, not, ◌&&◌, ◌||◌, ◌==◌, if◌then◌else◌, replicate, arith,
}
use networking_p.World.{Invoke}
use networking_p.Udp.Table.{udp_register_handler, find_handler}
use networking_p.Udp.Ports.{has_port, has_room, udp_register_handler_lem}
use networking_p.NetProto.Handle.{net_handle_frame}
use networking_p.ArpCache.{arp_cache_lookup}
use networking_p.NetProto.Send.{net_send_ipv4}
use networking_p.NetProto.Sizes.{send_promised, net_send_ipv4-send_promised}
use networking_p.NetProto.Bounded.{returns, frame-returns}
use networking_p.Tests.Fixtures.{handlers, sender, responder_ip}

udp_register_handler_lem_example :
    let (ok, es') = udp_register_handler handlers 5000 9 in
    (ok ≡ (not (5000 == 0 || 9 == 0) && (has_port handlers 5000 || has_room handlers)))
    × ((other : ℕ)
        → find_handler es' other ≡ (if ok && other == 5000 then 9 else find_handler handlers other))
udp_register_handler_lem_example = udp_register_handler_lem handlers 5000 9

-- A handler that does nothing.
abbrev ignore : Invoke
ignore = λ handler ip port payload len w. w

frame-returns_example :
    returns (net_handle_frame ignore sender (replicate {A = ℕ} 60 0xff) 60) ≡ true
frame-returns_example = frame-returns ignore sender (replicate {A = ℕ} 60 0xff) 60 (omega arith)

net_send_ipv4-send_promised_example :
    net_send_ipv4 sender (some responder_ip) 17 (some (1 ∷ 2 ∷ [])) 2
    ≡ send_promised sender responder_ip 17
        (1 ∷ 2 ∷ [])
        2
        (arp_cache_lookup sender.arp (some responder_ip) true).0
net_send_ipv4-send_promised_example =
    net_send_ipv4-send_promised sender responder_ip 17 (1 ∷ 2 ∷ []) 2
