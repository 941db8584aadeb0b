-- ===== src/Protocol/Origin/Order.antt =====
-- crates/dustnet-core/src/protocol/origin.rs: the order of origins by their storage keys.
use dustnet.Base.{ℕ, false, [], ◌∷◌, ltb, if◌then◌else◌, ◌≡◌, ◌↔◌, refl, sym, ap, ◌∙◌, arith}
use dustnet.Base.Utf8.{Bytes, as_bytes-injective}
use dustnet.Protocol.Origin.{Origin}
use dustnet.Protocol.Origin.Key.{
  key_bytes, key_bytes-as_bytes, IsOrigin, storage_key_display-injective, display-IsChar,
  storage_key_display,
}

-- `std::cmp::Ordering`
pub data Ordering : Type 0 where
  less equal greater : Ordering

abbrev pub reverse : Ordering → Ordering
reverse less = greater
reverse equal = equal
reverse greater = less

-- `Iterator::cmp`: the first bytes that differ decide, and else the shorter is less
unfoldable pub cmp_bytes : Bytes → Bytes → Ordering
cmp_bytes [] [] = equal
cmp_bytes [] (y ∷ ys) = less
cmp_bytes (x ∷ xs) [] = greater
cmp_bytes (x ∷ xs) (y ∷ ys) = if ltb x y then less else if ltb y x then greater else cmp_bytes xs ys

-- `Origin::cmp_storage_key`
unfoldable pub cmp_storage_key : Origin → Origin → Ordering
cmp_storage_key a b = cmp_bytes (key_bytes a) (key_bytes b)

cmp_bytes_refl : (xs : Bytes) → cmp_bytes xs xs ≡ equal
unfolding cmp_bytes
cmp_bytes_refl [] = refl
cmp_bytes_refl (x ∷ xs) = rw (irrefl x) (cmp_bytes_refl xs)
  where
    irrefl : (n : ℕ) → ltb n n ≡ false
    irrefl n = ground arith

cmp_bytes-equal : (xs ys : Bytes) → cmp_bytes xs ys ≡ equal → xs ≡ ys
unfolding cmp_bytes
cmp_bytes-equal [] [] e = refl
cmp_bytes-equal [] (y ∷ ys) e = absurd cc
cmp_bytes-equal (x ∷ xs) [] e = absurd cc
cmp_bytes-equal (x ∷ xs) (y ∷ ys) e = ground (arith, cmp_bytes-equal xs ys)

cmp_bytes-reverse : (xs ys : Bytes) → cmp_bytes ys xs ≡ reverse (cmp_bytes xs ys)
unfolding cmp_bytes
cmp_bytes-reverse [] [] = refl
cmp_bytes-reverse [] (y ∷ ys) = refl
cmp_bytes-reverse (x ∷ xs) [] = refl
cmp_bytes-reverse (x ∷ xs) (y ∷ ys) = ground (arith, cmp_bytes-reverse xs ys)

cmp_bytes_trans :
    (xs ys zs : Bytes) → cmp_bytes xs ys ≡ less → cmp_bytes ys zs ≡ less → cmp_bytes xs zs ≡ less
unfolding cmp_bytes
cmp_bytes_trans [] [] zs e f = absurd cc
cmp_bytes_trans [] (y ∷ ys) [] e f = absurd cc
cmp_bytes_trans [] (y ∷ ys) (z ∷ zs) e f = refl
cmp_bytes_trans (x ∷ xs) [] zs e f = absurd cc
cmp_bytes_trans (x ∷ xs) (y ∷ ys) [] e f = absurd cc
cmp_bytes_trans (x ∷ xs) (y ∷ ys) (z ∷ zs) e f = ground (arith, cmp_bytes_trans xs ys zs)

cmp_storage_key-equal :
    (a b : Origin) → IsOrigin a → IsOrigin b → cmp_storage_key a b ≡ equal → a ≡ b
unfolding cmp_storage_key
cmp_storage_key-equal a b v w e = storage_key_display-injective a b v.port_fits w.port_fits (
    as_bytes-injective (storage_key_display a) (storage_key_display b)
      (display-IsChar a v.host_chars) (display-IsChar b w.host_chars)
      (sym (key_bytes-as_bytes a v.port_fits)
        ∙ cmp_bytes-equal (key_bytes a) (key_bytes b) e
        ∙ key_bytes-as_bytes b w.port_fits))

-- The comparison of keys is a total order of the origins themselves: it answers `equal` for equal
-- origins only, the other way round it answers the reverse, and `less` is transitive.
pub cmp_storage_key-total :
    (a b c : Origin)
    → IsOrigin a
    → IsOrigin b
    → ((cmp_storage_key a b ≡ equal) ↔ (a ≡ b))
      × (cmp_storage_key b a ≡ reverse (cmp_storage_key a b))
      × ((cmp_storage_key a b ≡ less) → (cmp_storage_key b c ≡ less) → cmp_storage_key a c ≡ less)
unfolding cmp_storage_key
cmp_storage_key-total a b c v w = (
  (
    cmp_storage_key-equal a b v w,
    λ e. ap (λ o. cmp_bytes (key_bytes a) (key_bytes o)) (sym e) ∙ cmp_bytes_refl (key_bytes a),
  ),
  cmp_bytes-reverse (key_bytes a) (key_bytes b),
  cmp_bytes_trans (key_bytes a) (key_bytes b) (key_bytes c),
)
