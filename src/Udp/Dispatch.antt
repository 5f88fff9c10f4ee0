-- ===== src/Udp/Dispatch.antt =====
-- `udp_handle_packet` of kernel/udp.cc.
use networking_p.Prelude.{
  ℕ, ◌-◌, Bool, true, false, ◌||◌, ltb, ◌==◌, if◌then◌else◌, Option, none, some, List, drop,
}
use networking_p.Address.{Ip}
use networking_p.NetStats.{NetStatCounter}
use networking_p.World.{World, count, Invoke}
use networking_p.Wire.{bswap16, load_udp, udp_size}
use networking_p.Udp.Table.{find_handler}

-- Behind the null and length checks: the pointer's bytes and their number.
unfoldable pub dispatch : Invoke → World → Ip → List ℕ → ℕ → Bool × World
dispatch invoke w src_ip mem len =
    let udp = load_udp mem 0 in
    let udp_len = bswap16 udp.length in
    let handler = find_handler w.udp (bswap16 udp.dst_port) in
    if ltb udp_len udp_size || ltb len udp_len
    then (false, count w NetStatCounter.dropped_short)
    else if handler == 0
    then (false, w)
    else (
      true,
      invoke handler src_ip (bswap16 udp.src_port) (drop udp_size mem) (udp_len - udp_size)
          (count w NetStatCounter.udp_rx),
    )

unfoldable pub udp_handle_packet : Invoke → World → Option Ip → Option (List ℕ) → ℕ → Bool × World
udp_handle_packet invoke w none mem len = (false, count w NetStatCounter.dropped_short)
udp_handle_packet invoke w (some src_ip) none len = (false, count w NetStatCounter.dropped_short)
udp_handle_packet invoke w (some src_ip) (some mem) len =
    if ltb len udp_size
    then (false, count w NetStatCounter.dropped_short)
    else dispatch invoke w src_ip mem len
