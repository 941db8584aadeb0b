-- ===== src/Protocol/Origin.antt =====
-- crates/dustnet-core/src/protocol/origin.rs: `Origin`, the identity under which security-relevant
-- state is kept.
pub mod Canonical
pub mod Key
pub mod Order
mod Tests
use dustnet.Base.{ℕ, Bool, true, false, ◌&&◌, ◌≡◌, ◌↔◌, arith, ◌==◌}
use dustnet.Base.Text.{Text, text_eq, text_eq_iff}

-- `TransportSecurity`
pub data TransportSecurity : Type 0 where
  verified_tls pinned_tls insecure_tls plaintext_loopback : TransportSecurity

pub record Origin : Type 0 where
  pub host : Text
  pub port : ℕ
  pub security : TransportSecurity

unfoldable pub security_eq : TransportSecurity → TransportSecurity → Bool
security_eq verified_tls verified_tls = true
security_eq pinned_tls pinned_tls = true
security_eq insecure_tls insecure_tls = true
security_eq plaintext_loopback plaintext_loopback = true
security_eq _ _ = false

-- the derived `PartialEq`
unfoldable pub origin_eq : Origin → Origin → Bool
origin_eq a b = text_eq a.host b.host && a.port == b.port && security_eq a.security b.security

security_eq_iff : (a b : TransportSecurity) → (security_eq a b ≡ true) ↔ (a ≡ b)
unfolding security_eq
security_eq_iff a b = ground arith

pub origin_eq_iff : (a b : Origin) → (origin_eq a b ≡ true) ↔ (a ≡ b)
unfolding origin_eq
origin_eq_iff a b = ground (arith, text_eq_iff a.host b.host, security_eq_iff a.security b.security)
