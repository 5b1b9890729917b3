-- ===== src/UrlGuard/Addresses.antt =====
-- The addresses that the guard lets through: the forms of IPv6 that carry an IPv4 address, and the
-- set of addresses that a name resolves to.
use headwater.Prelude.{refl, ◌≡◌, ℕ, ◌+◌, ◌*◌, ◌^◌, ◌<◌, some, Text, arith}
use headwater.UrlGuard.{Net, v4, v6, is_routable, is_globally_routable, unwrap_embedded_ipv4}

-- The IPv6 addresses that stand for the IPv4 address `n`: mapped ones, those of 6to4, and those of
-- the well-known prefix of NAT64.
pub data Carries (n : ℕ) : ℕ → Type 0 where
  mapped : Carries n (65535 * 2 ^ 32 + n)
  six_to_four : (rest : ℕ) → rest < 2 ^ 80 → Carries n ((8194 * 2 ^ 32 + n) * 2 ^ 80 + rest)
  nat64 : Carries n (6619035 * 2 ^ 96 + n)

unwrap-Carries : (n m : ℕ) → n < 2 ^ 32 → Carries n m → unwrap_embedded_ipv4 (v6 m) ≡ v4 n
unfolding unwrap_embedded_ipv4
unwrap-Carries n _ h mapped = ground arith
unwrap-Carries n _ h (six_to_four rest b) = ground arith
unwrap-Carries n _ h nat64 = ground arith

module _ (net : Net) where
  -- A text that parses to an IPv6 address carrying an IPv4 address is judged as that IPv4 address
  -- is.
  pub is_globally_routable-Carries :
      (ip : Text) (n m : ℕ)
      → n < 2 ^ 32
      → Carries n m
      → net.ip_address ip ≡ some (v6 m)
      → is_globally_routable net ip ≡ is_routable net (v4 n)
  unfolding is_globally_routable
  is_globally_routable-Carries ip n m h c e =
      rw (is_globally_routable, e, unwrap-Carries n m h c) refl
