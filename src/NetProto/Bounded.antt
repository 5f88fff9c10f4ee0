-- ===== src/NetProto/Bounded.antt =====
-- Frames of kernel/net_proto.cc whose reply fits in the array of `handle_ipv4`.
use networking_p.Prelude.{
  ℕ, ◌+◌, ◌-◌, ◌≤◌, ◌≡◌, refl, Bool, true, false, ltb, List, le→ltb, ltb→le, Bool-cases, inl, inr,
  arith,
}
use networking_p.NetStats.{NetStatCounter}
use networking_p.World.{World, Invoke, count}
use networking_p.Wire.{Ipv4Header, bswap16, eth_size, load_ipv4}
use networking_p.NetProto.Handle.{
  Outcome, done, overrun, reply_size, net_handle_frame, handle_ipv4, handle_payload, answer_echo,
  ipv4_header_length,
}

abbrev pub returns : Outcome → Bool
returns (done w) = true
returns overrun = false

answer-returns :
    (w : World) (mem : List ℕ) (hdr_len total : ℕ)
    → hdr_len ≤ total
    → eth_size + total ≤ reply_size
    → returns (answer_echo w mem hdr_len total) ≡ true
unfolding answer_echo
answer-returns w mem hdr_len total inside fits =
    let small : ltb reply_size (eth_size + hdr_len + (total - hdr_len)) ≡ false =
      le→ltb _ _ (omega arith) in
    rw small (ground arith)

payload-returns :
    (invoke : Invoke) (w : World) (mem : List ℕ) (len : ℕ) (ip : Ipv4Header) (hdr_len : ℕ)
    → len ≤ reply_size
    → returns (handle_payload invoke w mem len ip hdr_len) ≡ true
unfolding handle_payload
payload-returns invoke w mem len ip hdr_len small =
    elim (Bool-cases (ltb (bswap16 ip.total_length) hdr_len)) [
      | inl short ↦ rw short refl
      | inr inside ↦ elim (Bool-cases (ltb len (eth_size + bswap16 ip.total_length))) [
        | inl cut ↦ rw (inside, cut) refl
        | inr whole ↦
            let echo =
              answer-returns w mem hdr_len (bswap16 ip.total_length) (ltb→le _ _ inside)
                (omega (arith, ltb→le len (eth_size + bswap16 ip.total_length) whole)) in
            ground (arith, echo)
      ]
    ]

ipv4-returns :
    (invoke : Invoke) (w : World) (mem : List ℕ) (len : ℕ)
    → len ≤ reply_size
    → returns (handle_ipv4 invoke w mem len) ≡ true
unfolding handle_ipv4
ipv4-returns invoke w mem len small =
    let ip = load_ipv4 mem eth_size in
    let rest =
      payload-returns invoke (count w NetStatCounter.ipv4_rx) mem len ip (ipv4_header_length ip)
        small in
    ground (arith, rest)

-- A frame of at most 1514 bytes, whatever it holds, is handled without a write past the array.
pub frame-returns :
    (invoke : Invoke) (w : World) (mem : List ℕ) (len : ℕ)
    → len ≤ reply_size
    → returns (net_handle_frame invoke w mem len) ≡ true
unfolding net_handle_frame
frame-returns invoke w mem len small = ground (arith, ipv4-returns invoke w mem len small)
