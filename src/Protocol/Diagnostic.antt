-- ===== src/Protocol/Diagnostic.antt =====
-- crates/dustnet-core/src/protocol/mod.rs: the bounded text of an error. A formatted message is the
-- list of the pieces that the formatting machinery writes.
use mathlib.Core.Bool.{true≢false}
use dustnet.Base.{
  ℕ, ◌+◌, ◌-◌, ◌^◌, ◌≤◌, Bool, true, false, List, [], ◌∷◌, ◌++◌, ◌==◌, ◌≡◌, ◌⊎◌, refl, ltb, leb,
  if◌then◌else◌, arith, Bool-cases, inl, inr, ap, sym, ◌∙◌, append_assoc,
}
use dustnet.Base.Text.{Text, len_utf8, len, len-append}
use dustnet.Protocol.Error.{ProtocolError, resource_exhausted}

abbrev pub max_protocol_diagnostic_bytes : ℕ
max_protocol_diagnostic_bytes = 2048

-- `usize::saturating_add`
abbrev pub saturating_add : ℕ → ℕ → ℕ
saturating_add a b = if leb (a + b) (2 ^ 64 - 1) then a + b else 2 ^ 64 - 1

-- `ProtocolDiagnosticWriter`
pub record ProtocolDiagnosticWriter : Type 0 where
  pub value : Text
  pub requested : ℕ
  pub rejected : Bool
  pub truncated : Bool

-- `&text[..take]`, after `take` went down from `limit` to a boundary of a character
unfoldable pub floor_boundary : ℕ → Text → Text
floor_boundary limit [] = []
floor_boundary limit (c ∷ cs) =
    if leb (len_utf8 c) limit then c ∷ floor_boundary (limit - len_utf8 c) cs else []

abbrev pub truncate : ProtocolDiagnosticWriter → ProtocolDiagnosticWriter
truncate w = record w { truncated = true }

-- `write_str`, which fails (`rejected`) when the allocator does not grant the piece
unfoldable pub write_str : (ℕ → Bool) → Text → ProtocolDiagnosticWriter → ProtocolDiagnosticWriter
write_str grants text old =
    let w : ProtocolDiagnosticWriter = record old {
      requested = saturating_add old.requested (len text);
    } in
    let taken = floor_boundary (max_protocol_diagnostic_bytes - len w.value) text in
    if w.truncated
    then w
    else if len taken == 0
    then truncate w
    else if grants (len taken)
    then record {
      value = w.value ++ taken;
      requested = w.requested;
      rejected = w.rejected;
      truncated = ltb (len taken) (len text);
    }
    else record w { rejected = true }

-- `write_fmt`, which stops at the first failure
unfoldable pub write_fmt :
    (ℕ → Bool) → List Text → ProtocolDiagnosticWriter → ProtocolDiagnosticWriter
write_fmt grants [] w = w
write_fmt grants (t ∷ ts) w =
    let next = write_str grants t w in if next.rejected then next else write_fmt grants ts next

abbrev pub empty_writer : ProtocolDiagnosticWriter
empty_writer = record { value = []; requested = 0; rejected = false; truncated = false }

abbrev pub finish : (Text → ProtocolError) → ProtocolDiagnosticWriter → ProtocolError
finish make w =
    if w.rejected
    then resource_exhausted (if w.requested == 0 then 1 else w.requested)
    else make w.value

-- `try_protocol_diagnostic` and the constructor that wraps its text: `ProtocolError::invalid_message`,
-- `invalid_uri` and `tls`
unfoldable pub diagnostic : (ℕ → Bool) → (Text → ProtocolError) → List Text → ProtocolError
diagnostic grants make pieces = finish make (write_fmt grants pieces empty_writer)

len-floor_boundary : (limit : ℕ) (t : Text) → len (floor_boundary limit t) ≤ limit
unfolding floor_boundary
len-floor_boundary limit [] = omega arith
len-floor_boundary limit (c ∷ cs) = ground (arith, len-floor_boundary (limit - len_utf8 c) cs)

-- The text is cut behind a prefix, and the last case is exact.
floor_boundary-prefix :
    (limit : ℕ) (t : Text) → (rest : Text) × (floor_boundary limit t ++ rest ≡ t)
unfolding floor_boundary
floor_boundary-prefix limit [] = ([], refl)
floor_boundary-prefix limit (c ∷ cs) =
    let (rest, e) = floor_boundary-prefix (limit - len_utf8 c) cs in
    elim (Bool-cases (leb (len_utf8 c) limit)) [
      | inl g ↦ (rest, rw g (ap (λ r. c ∷ r) e))
      | inr g ↦ (c ∷ cs, rw g refl)
    ]

len_utf8-positive : (c : ℕ) → 1 ≤ len_utf8 c
len_utf8-positive c = ground arith

floor_boundary-all :
    (limit : ℕ) (t : Text)
    → ltb (len (floor_boundary limit t)) (len t) ≡ false
    → floor_boundary limit t ≡ t
unfolding floor_boundary
floor_boundary-all limit [] h = refl
floor_boundary-all limit (c ∷ cs) h = elim (Bool-cases (leb (len_utf8 c) limit)) [
  | inl g ↦ rw g (ap (λ r. c ∷ r) (floor_boundary-all (limit - len_utf8 c) cs (cut g)))
  | inr g ↦ absurd (shorter g)
]
  where
    cut :
        leb (len_utf8 c) limit ≡ true
        → ltb (len (floor_boundary (limit - len_utf8 c) cs)) (len cs) ≡ false
    cut g = ground arith

    shorter : leb (len_utf8 c) limit ≡ false → ⊥
    shorter g = ground (arith, len_utf8-positive c)

-- What was written is a prefix of what was to be, all of it if nothing was cut, and bounded.
abbrev pub Follows : Text → ProtocolDiagnosticWriter → Type 0
Follows t w =
    (len w.value ≤ max_protocol_diagnostic_bytes)
    × ((rest : Text) × (w.value ++ rest ≡ t))
    × (w.truncated ≡ false → w.rejected ≡ false → w.value ≡ t)

later :
    (v done t : Text) → (rest : Text) × (v ++ rest ≡ done) → (rest : Text) × (v ++ rest ≡ done ++ t)
later v done t (rest, e) = (rest ++ t, sym (append_assoc v rest t) ∙ ap (λ r. r ++ t) e)

write_str-Follows :
    (grants : ℕ → Bool) (t done : Text) (w : ProtocolDiagnosticWriter)
    → w.rejected ≡ false
    → Follows done w
    → Follows (done ++ t) (write_str grants t w)
unfolding write_str
write_str-Follows grants t done w r (b, p, x) = elim (Bool-cases w.truncated) [
  | inl g ↦ rw g (b, later w.value done t p, λ k. absurd (true≢false k))
  | inr g ↦ rw g (elim (Bool-cases (len taken == 0)) [
    | inl n ↦ rw n (b, later w.value done t p, λ k. absurd (true≢false k))
    | inr n ↦ rw n (elim (Bool-cases (grants (len taken))) [
      | inl k ↦ rw k (written (x g r))
      | inr k ↦ rw k (b, later w.value done t p, λ _ k. absurd (true≢false k))
    ])
  ])
]
  where
    taken : Text
    taken = floor_boundary (max_protocol_diagnostic_bytes - len w.value) t

    fits : len (w.value ++ taken) ≤ max_protocol_diagnostic_bytes
    fits = ground (
      arith,
      len-append w.value taken,
      len-floor_boundary (max_protocol_diagnostic_bytes - len w.value) t,
    )

    written :
        w.value ≡ done
        → (len (w.value ++ taken) ≤ max_protocol_diagnostic_bytes)
          × ((rest : Text) × ((w.value ++ taken) ++ rest ≡ done ++ t))
          × (ltb (len taken) (len t) ≡ false → w.rejected ≡ false → w.value ++ taken ≡ done ++ t)
    written e =
        let (rest, q) = floor_boundary-prefix (max_protocol_diagnostic_bytes - len w.value) t in
        (
          fits,
          (rest, append_assoc w.value taken rest ∙ ap (λ a. w.value ++ a) q ∙ ap (λ a. a ++ t) e),
          λ k _.
              ap (λ a. w.value ++ a)
                (floor_boundary-all (max_protocol_diagnostic_bytes - len w.value) t k)
              ∙ ap (λ a. a ++ t) e,
        )

abbrev pub concat : List Text → Text
concat [] = []
concat (t ∷ ts) = t ++ concat ts

write_fmt-Follows :
    (grants : ℕ → Bool) (ts : List Text) (done : Text) (w : ProtocolDiagnosticWriter)
    → w.rejected ≡ false
    → Follows done w
    → (len (write_fmt grants ts w).value ≤ max_protocol_diagnostic_bytes)
      × ((rest : Text) × ((write_fmt grants ts w).value ++ rest ≡ done ++ concat ts))
unfolding write_fmt write_str
write_fmt-Follows grants [] done w r (b, p, x) = (b, later w.value done [] p)
write_fmt-Follows grants (t ∷ ts) done w r f =
    let (b, (rest, q), x) = write_str-Follows grants t done w r f in
    elim (Bool-cases (write_str grants t w).rejected) [
      | inl g ↦ rw g (
        b,
        (
          rest ++ concat ts,
          sym (append_assoc (write_str grants t w).value rest (concat ts))
              ∙ ap (λ a. a ++ concat ts) q
              ∙ append_assoc done t (concat ts),
        ),
      )
      | inr g ↦
          rw (g, ← append_assoc done t (concat ts))
            (write_fmt-Follows grants ts (done ++ t) (write_str grants t w) g (b, (rest, q), x))
    ]

-- What an error with a formatted message can be.
abbrev pub IsDiagnostic : (Text → ProtocolError) → Text → ProtocolError → Type 0
IsDiagnostic make full e =
    ((value : Text) × (e ≡ make value)
      × (len value ≤ max_protocol_diagnostic_bytes)
      × ((rest : Text) × (value ++ rest ≡ full)))
    ⊎ ((requested : ℕ) × (e ≡ resource_exhausted requested) × (1 ≤ requested))

-- Whatever the allocator grants, an error with a formatted message is the error it was to be with a
-- prefix of the full message of at most 2048 bytes, or a refusal that names at least one byte.
pub diagnostic-IsDiagnostic :
    (grants : ℕ → Bool) (make : Text → ProtocolError) (pieces : List Text)
    → IsDiagnostic make (concat pieces) (diagnostic grants make pieces)
unfolding diagnostic
diagnostic-IsDiagnostic grants make pieces =
    let (b, p) =
      write_fmt-Follows grants pieces [] empty_writer refl (omega arith, ([], refl), λ _ _. refl) in
    elim (Bool-cases (write_fmt grants pieces empty_writer).rejected) [
      | inl g ↦ rw g (
          inr (
            if (write_fmt grants pieces empty_writer).requested == 0
                then 1
                else (write_fmt grants pieces empty_writer).requested,
            refl,
            ground arith,
          ))
      | inr g ↦ rw g (inl ((write_fmt grants pieces empty_writer).value, refl, b, p))
    ]
