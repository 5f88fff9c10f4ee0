-- ===== src/Tests/Rings.antt =====
-- Runs of the fake backend of kernel/virtio_net.cc, on slots of the declared sizes.
use networking_p.Prelude.{
  ℕ, ◌≡◌, refl, true, false, some, List, [], ◌∷◌, replicate, length, length-replicate, arith,
}
use networking_p.NetStats.{NetStatCounter, net_stats_increment}
use networking_p.World.{World, count, Invoke}
use networking_p.ArpCache.{arp_cache_insert, arp_cache_reset, arp_cache_lookup}
use networking_p.ArpCache.Valid.{IsValid, arp_cache_reset-IsValid}
use networking_p.Chat.Store.{chat_udp_handler}
use networking_p.Delivery.Sent.{udp_send_to-deliver}
use networking_p.Udp.Send.{udp_send_to}
use networking_p.Udp.Table.{find_handler}
use networking_p.Resolution.Frames.{lookup-insert}
use networking_p.Resolution.Exchange.{deliver, arp_exchange, arp_resolved}
use networking_p.VirtioNet.State.{FrameSlot, fake, queue_size}
use networking_p.VirtioNet.Fake.{error, nothing, frame}
use networking_p.VirtioNet.Api.{net_init_fake, net_send_raw, net_copy_last_tx_for_test}
use networking_p.VirtioNet.Fifo.Receive.{pop_frame}
use networking_p.VirtioNet.Fifo.Run.{
  Op, inject_rx, recv_raw, injected, received, calls, queue_call, queue_calls, calls-net_init_fake,
}
use networking_p.VirtioNet.Transmit.{IsIdle}
use networking_p.VirtioNet.Sending.{net_send_raw-IsIdle, init-IsIdle}
use networking_p.Tests.Fixtures.{
  sender, fake_net, no_arp, sender_ip, sender_mac, responder_ip, responder_mac,
}

abbrev declared_slot : FrameSlot
declared_slot = record { bytes = replicate 2048 0; len = 0; occupied = false }

abbrev w0 : World
w0 = record sender {
  net = record fake_net {
    rx_slots = replicate queue_size declared_slot;
    tx_slots = replicate queue_size declared_slot;
    last_fake_tx = replicate 2048 0;
  };
}

-- Two frames in, a short buffer, then both out.
abbrev ops : List Op
ops =
    inject_rx (1 ∷ 2 ∷ [])
    ∷ inject_rx []
    ∷ inject_rx (3 ∷ [])
    ∷ recv_raw 1
    ∷ recv_raw 2
    ∷ recv_raw 9
    ∷ recv_raw 9
    ∷ []

calls-net_init_fake_example :
    calls (net_init_fake w0) ops
    ≡ injected true
      ∷ injected false
      ∷ injected true
      ∷ received error
      ∷ received (frame (1 ∷ 2 ∷ []))
      ∷ received (frame (3 ∷ []))
      ∷ received nothing
      ∷ []
unfolding queue_calls queue_call pop_frame
calls-net_init_fake_example =
    calls-net_init_fake w0 ops
      (refl, (each, (each, (each, (each, (each, (each, (each, (each, tt)))))))))
  where
    each : length declared_slot.bytes ≡ 2048
    each = length-replicate {A = ℕ} 2048 0

-- The hypotheses of the next run: a machine just after `net_init_fake`.
pub started : IsIdle (net_init_fake w0).net
started = init-IsIdle w0 refl (length-replicate {A = ℕ} 2048 0)

net_send_raw-IsIdle_example :
    let (done, w') = net_send_raw (net_init_fake w0) (some (5 ∷ 6 ∷ 7 ∷ [])) 2 in
    (done ≡ true)
    × (net_copy_last_tx_for_test w' true (some 2048) ≡ some (5 ∷ 6 ∷ []))
    × (w'.stats ≡ net_stats_increment (net_init_fake w0).stats NetStatCounter.raw_tx)
    × (w'.net.backend ≡ fake)
    × IsIdle w'.net
unfolding net_init_fake
net_send_raw-IsIdle_example =
    net_send_raw-IsIdle (net_init_fake w0) (5 ∷ 6 ∷ 7 ∷ []) 2 refl started (omega arith)
      (omega arith) (omega arith)

-- Two machines just after `net_init_fake`, with empty caches.
abbrev asker : World
asker = record (net_init_fake w0) { arp = no_arp }

abbrev pub owner : World
owner = record asker { my_mac = responder_mac; my_ip = responder_ip }

pub empty_cache : IsValid no_arp
unfolding arp_cache_reset
empty_cache = arp_cache_reset-IsValid no_arp

-- Every handler is that of the chat.
abbrev chatting : Invoke
chatting =
    λ handler ip port payload len w. record w { chat = chat_udp_handler w.chat ip port payload len }

arp_resolved_example :
    (a1 : World) × (b1 : World) × (arp_exchange chatting asker owner ≡ some (a1, b1))
    × ((arp_cache_lookup a1.arp (some responder_ip) true).0 ≡ some responder_mac)
    × ((arp_cache_lookup b1.arp (some sender_ip) true).0 ≡ some sender_mac)
unfolding net_init_fake
arp_resolved_example =
    arp_resolved chatting asker owner refl refl started started empty_cache empty_cache
      (omega arith) (omega arith)

-- The asker when it knows the owner.
abbrev pub knower : World
knower = record asker { arp = arp_cache_insert no_arp (some responder_ip) (some responder_mac) }

udp_send_to-deliver_example :
    let (ok, a1) = udp_send_to knower (some responder_ip) 4390 4390 (some (104 ∷ 105 ∷ [])) 2 in
    (ok ≡ true)
    × (deliver chatting a1 owner
        ≡ some (
            chatting 7 sender_ip 4390
              (104 ∷ 105 ∷ [])
              2
              (count (count owner NetStatCounter.ipv4_rx) NetStatCounter.udp_rx)))
unfolding net_init_fake find_handler
udp_send_to-deliver_example =
    udp_send_to-deliver chatting knower owner (104 ∷ 105 ∷ []) 4390 4390 (omega arith) (omega arith)
      (omega arith) (omega arith) (omega arith) (omega arith) (omega arith) (omega arith)
      (lookup-insert no_arp responder_ip responder_mac empty_cache (omega arith)) refl started
