-- ===== src/Session/Store/Keys.antt =====
-- crates/dustnet-core/src/session.rs: an origin cleared by its storage key.
use dustnet.Base.{Bool, true, [], ◌∷◌, ◌≡◌, ◌↔◌, refl, ap, arith, All}
use dustnet.Protocol.Origin.{Origin, origin_eq, origin_eq_iff}
use dustnet.Protocol.Origin.Key.{
  IsOrigin, matches_storage_key, matches_storage_key_iff, storage_key_display, display-IsChar,
  storage_key_display-injective,
}
use dustnet.Session.Store.{Sites, clear_origin, clear_storage_key}

matches-origin_eq :
    (o origin : Origin)
    → IsOrigin o
    → IsOrigin origin
    → matches_storage_key o (storage_key_display origin) ≡ origin_eq o origin
matches-origin_eq o origin v w =
    both (matches_storage_key o (storage_key_display origin)) (origin_eq o origin)
      (λ e.
        (origin_eq_iff o origin).1
          (storage_key_display-injective o origin v.port_fits w.port_fits (tells.0 e)))
      (λ e. tells.1 (ap storage_key_display ((origin_eq_iff o origin).0 e)))
  where
    both : (a b : Bool) → (a ≡ true → b ≡ true) → (b ≡ true → a ≡ true) → a ≡ b
    both a b f g = ground arith

    tells :
        (matches_storage_key o (storage_key_display origin) ≡ true)
        ↔ (storage_key_display o ≡ storage_key_display origin)
    tells =
        matches_storage_key_iff o (storage_key_display origin) v
          (display-IsChar origin w.host_chars)

-- Clearing by the storage key of an origin clears that origin, and no other.
pub clear_storage_key-clear_origin :
    (origin : Origin) (sites : Sites)
    → IsOrigin origin
    → All (λ entry. IsOrigin entry.0) sites
    → clear_storage_key (storage_key_display origin) sites ≡ clear_origin origin sites
unfolding clear_storage_key clear_origin
clear_storage_key-clear_origin origin [] w h = refl
clear_storage_key-clear_origin origin ((o, site) ∷ rest) w h =
    rw (matches-origin_eq o origin h.0 w, clear_storage_key-clear_origin origin rest w h.1) refl
