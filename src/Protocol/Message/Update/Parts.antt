-- ===== src/Protocol/Message/Update/Parts.antt =====
-- crates/dustnet-core/src/protocol/message.rs: an update that is written from its parts is checked as one
-- that is assembled.
use dustnet.Base.{ℕ, ◌+◌, true, ◌∷◌, ltb, ◌≡◌, refl, ap, ◌∙◌, arith, Bool-cases, inl, inr}
use dustnet.Base.Text.{Text, codes, len, len-append}
use dustnet.Protocol.Error.{update, Result, ok, ◌>>=◌, ◌>>◌, reserve, >>=-eq-ok}
use dustnet.Protocol.Message.Fields.{
  max_live_update_size, checked_add_size, enforce_message_limit, validate_primary_value,
  >>=-follows,
}
use dustnet.Protocol.Message.Update.{
  UpdateHeap, region_label, parts_body_len, validate_update_parts, update_body, try_serialize_parts,
}
use dustnet.Protocol.Path.{usize_max}

pub record Generous (heap : UpdateHeap) : Type 0 where
  pub region : (n : ℕ) → heap.region n ≡ true
  pub content : (n : ℕ) → heap.content n ≡ true
  pub body : (n : ℕ) → heap.body n ≡ true

pub len-update_body :
    (region content : Text)
    → len (update_body region content) ≡ len (codes "UPDATE \n\n") + len region + len content
unfolding update_body
len-update_body region content =
    let a = len-append region (b'\n' ∷ b'\n' ∷ content) in omega (arith, a)

checked_add_size-sum : (a b : ℕ) {c : ℕ} → checked_add_size a b ≡ ok c → c ≡ a + b
checked_add_size-sum a b {c} e = elim (Bool-cases (ltb usize_max (a + b))) [
  | inl k ↦ (let q = rw k at e in absurd cc)
  | inr k ↦ (let q = rw k at e in cc)
]

ok_inj : {s t : Text} → Path (Result Text) (ok s) (ok t) → s ≡ t
ok_inj e = cc

-- With an allocator that grants the body, the check of the parts answers as the assembly of the body
-- does, with the same errors, and where it succeeds the length that is announced is that of the body.
pub validate_update_parts-assembled :
    (heap : UpdateHeap) (region content : Text)
    → Generous heap
    → (validate_update_parts heap region (len content)
        ≡ (try_serialize_parts heap region content >>= λ body. ok tt))
      × ((body : Text)
          → try_serialize_parts heap region content ≡ ok body
          → parts_body_len region (len content) ≡ ok (len body))
unfolding validate_update_parts try_serialize_parts parts_body_len
validate_update_parts-assembled heap region content g = (checked, announced)
  where
    n : ℕ
    n = len (codes "UPDATE \n\n") + len region

    limit : (r : ℕ) → Result (Unit {0})
    limit r = enforce_message_limit update r max_live_update_size

    behind :
        (r : ℕ)
        → limit r ≡ (
            (limit r >> (reserve (heap.body r) r >> ok (update_body region content))) >>= λ body.
            ok tt)
    behind r = elim (Bool-cases (ltb max_live_update_size r)) [
      | inl e ↦ rw e refl
      | inr e ↦ rw (e, g.body r) refl
    ]

    checked :
        validate_update_parts heap region (len content)
        ≡ (try_serialize_parts heap region content >>= λ body. ok tt)
    checked =
        >>=-follows (validate_primary_value heap.diagnostics region_label region) _ _
          (λ body. ok tt)
          λ _. elim (Bool-cases (ltb usize_max n)) [
            | inl e ↦ rw e refl
            | inr e ↦ elim (Bool-cases (ltb usize_max (n + len content))) [
              | inl k ↦ rw (e, k) refl
              | inr k ↦ rw (e, k) (behind (n + len content))
            ]
          ]

    announced :
        (body : Text)
        → try_serialize_parts heap region content ≡ ok body
        → parts_body_len region (len content) ≡ ok (len body)
    announced body e =
        let (u, e0, f0) =
          >>=-eq-ok (validate_primary_value heap.diagnostics region_label region) _ {b = body} e in
        let (size, e1, f1) =
          >>=-eq-ok (checked_add_size (len (codes "UPDATE \n\n")) (len region)) _ {b = body} f0 in
        let (requested, e2, f2) = >>=-eq-ok (checked_add_size size (len content)) _ {b = body} f1 in
        let (v, e3, f3) = >>=-eq-ok (limit requested) _ {b = body} f2 in
        let (w, e4, f4) = >>=-eq-ok (reserve (heap.body requested) requested) _ {b = body} f3 in
        let total : requested ≡ len (update_body region content) = omega (
          arith,
          checked_add_size-sum size (len content) e2,
          checked_add_size-sum (len (codes "UPDATE \n\n")) (len region) e1,
          len-update_body region content,
        ) in
        rw e1 (e2 ∙ ap ok (total ∙ ap len (ok_inj f4)))
