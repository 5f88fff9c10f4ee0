-- ===== src/Address.antt =====
-- The fixed byte arrays of the stack: `uint8_t ip[4]` and `uint8_t mac[6]`, with the comparison
-- loops of kernel/net_proto.cc and kernel/arp_cache.cc, written out byte by byte.
use networking_p.Prelude.{ℕ, ◌≡◌, Bool, true, ◌&&◌, ◌==◌, List, [], ◌∷◌, arith}

pub record Ip : Type 0 where
  pub a : ℕ
  pub b : ℕ
  pub c : ℕ
  pub d : ℕ

pub record Mac : Type 0 where
  pub m0 : ℕ
  pub m1 : ℕ
  pub m2 : ℕ
  pub m3 : ℕ
  pub m4 : ℕ
  pub m5 : ℕ

-- The first difference ends the loop.
unfoldable pub ip_equals : Ip → Ip → Bool
ip_equals x y = x.a == y.a && (x.b == y.b && (x.c == y.c && x.d == y.d))

unfoldable pub mac_equals : Mac → Mac → Bool
mac_equals x y =
    x.m0 == y.m0
    && (x.m1 == y.m1 && (x.m2 == y.m2 && (x.m3 == y.m3 && (x.m4 == y.m4 && x.m5 == y.m5))))

pub eq_of_ip_equals : (x y : Ip) → ip_equals x y ≡ true → x ≡ y
unfolding ip_equals
eq_of_ip_equals x y h = ground arith

pub ip_equals_refl : (x : Ip) → ip_equals x x ≡ true
unfolding ip_equals
ip_equals_refl x = ground arith

pub eq_of_mac_equals : (x y : Mac) → mac_equals x y ≡ true → x ≡ y
unfolding mac_equals
eq_of_mac_equals x y h = ground arith

pub mac_equals_refl : (x : Mac) → mac_equals x x ≡ true
unfolding mac_equals
mac_equals_refl x = ground arith

abbrev pub zero_ip : Ip
zero_ip = record { a = 0; b = 0; c = 0; d = 0 }

abbrev pub zero_mac : Mac
zero_mac = record { m0 = 0; m1 = 0; m2 = 0; m3 = 0; m4 = 0; m5 = 0 }

abbrev pub broadcast : Mac
broadcast = record { m0 = 0xff; m1 = 0xff; m2 = 0xff; m3 = 0xff; m4 = 0xff; m5 = 0xff }

-- The bytes of an array, in order.
abbrev pub ip_bytes : Ip → List ℕ
ip_bytes x = x.a ∷ x.b ∷ x.c ∷ x.d ∷ []

abbrev pub mac_bytes : Mac → List ℕ
mac_bytes x = x.m0 ∷ x.m1 ∷ x.m2 ∷ x.m3 ∷ x.m4 ∷ x.m5 ∷ []
