-- ===== src/Protocol/Message/Get/RoundTrip.antt =====
-- crates/dustnet-core/src/protocol/message.rs: a GET body that is written is parsed back.
use dustnet.Base.{
  ℕ, ◌+◌, ◌≤◌, false, Option, none, some, [], ◌∷◌, ◌++◌, ltb, ◌≡◌, refl, sym, ap, subst, arith,
  append-nil,
}
use dustnet.Base.Text.{Text, codes, len, len-append, text_eq, strip_prefix-append}
use dustnet.Protocol.Error.{ok, ◌>>=◌}
use dustnet.Protocol.Message.Fields.{max_control_message_size, for_each, field_line}
use dustnet.Protocol.Message.Get.{
  GetMessage, GetHeap, query_key, referrer_key, session_key, get_field, get_step, no_fields, parse,
  add_get_field, get_body, serialize,
}
use dustnet.Protocol.Message.Get.Checked.{Generous}
use dustnet.Protocol.Message.Input.Checked.{is_some}
use dustnet.Protocol.Message.Lines.{lines, split_field}
use dustnet.Protocol.Message.Sizes.{
  IsValue, OptionalValue, field_lines, field_size, len-field_line, IsLabel, checked_add_size-fits,
  parse_control_field-label, lines-label, lines-field_line, for_each-append,
}
use dustnet.Protocol.Path.{usize_max}

-- A message whose parts a body can hold.
pub record IsGet (m : GetMessage) : Type 0 where
  pub path : IsValue m.path
  pub query : OptionalValue m.query
  pub referrer : OptionalValue m.referrer
  pub session : OptionalValue m.session

query-IsLabel : IsLabel (codes "Query: ") query_key
unfolding split_field
query-IsLabel = record { visible = refl; full = refl; split = λ v. refl; first = λ v. refl }

referrer-IsLabel : IsLabel (codes "Referrer: ") referrer_key
unfolding split_field
referrer-IsLabel = record { visible = refl; full = refl; split = λ v. refl; first = λ v. refl }

session-IsLabel : IsLabel (codes "Session: ") session_key
unfolding split_field
session-IsLabel = record { visible = refl; full = refl; split = λ v. refl; first = λ v. refl }

-- the size of a field with its line feed
abbrev line_size : Text → Option Text → ℕ
line_size label o = field_size (label ++ b'\n' ∷ []) o

add_get_field-fits :
    (label : Text) (size : ℕ) (o : Option Text)
    → size + line_size label o ≤ usize_max
    → add_get_field label size o ≡ ok (size + line_size label o)
add_get_field-fits label size none h = ap ok (omega arith)
add_get_field-fits label size (some value) h =
    let a = len-append label (b'\n' ∷ []) in
    rw
      (
        checked_add_size-fits size (len label) (omega arith),
        checked_add_size-fits (size + len label) (len value + 1) (omega arith),
      )
      (ap ok (omega (arith, a)))

body_size : GetMessage → ℕ
body_size m =
    len (codes "GET \n")
    + len m.path
    + line_size (codes "Query: ") m.query
    + line_size (codes "Referrer: ") m.referrer
    + line_size (codes "Session: ") m.session

len-get_body : (m : GetMessage) → len (get_body m) ≡ body_size m
unfolding get_body body_size
len-get_body m =
    let q = field_line (codes "Query: ") m.query in
    let r = field_line (codes "Referrer: ") m.referrer in
    let s = field_line (codes "Session: ") m.session in
    let a = len-append m.path (b'\n' ∷ (q ++ (r ++ s))) in
    let b = len-append q (r ++ s) in
    let c = len-append r s in
    let d = len-field_line (codes "Query: ") m.query in
    let e = len-field_line (codes "Referrer: ") m.referrer in
    let f = len-field_line (codes "Session: ") m.session in omega (arith, a, b, c, d, e, f)

in_bound : (n : ℕ) → n ≤ max_control_message_size → ltb max_control_message_size n ≡ false
in_bound n h = ground arith

serialize-fits :
    (heap : GetHeap) (m : GetMessage)
    → Generous heap
    → body_size m ≤ max_control_message_size
    → serialize heap m ≡ ok (get_body m)
unfolding serialize body_size
serialize-fits heap m g h =
    let n = len (codes "GET \n") + len m.path in
    let q = n + line_size (codes "Query: ") m.query in
    let r = q + line_size (codes "Referrer: ") m.referrer in
    let s = r + line_size (codes "Session: ") m.session in
    rw
      (
        checked_add_size-fits (len (codes "GET \n")) (len m.path) (omega arith),
        add_get_field-fits (codes "Query: ") n m.query (omega arith),
        add_get_field-fits (codes "Referrer: ") q m.referrer (omega arith),
        add_get_field-fits (codes "Session: ") r m.session (omega arith),
        in_bound s h,
        g.body s,
      )
      refl

lines-fields :
    (m : GetMessage)
    → IsGet m
    → lines (
        field_line (codes "Query: ") m.query
        ++ (field_line (codes "Referrer: ") m.referrer ++ field_line (codes "Session: ") m.session))
      ≡ field_lines (codes "Query: ") m.query
        ++ (field_lines (codes "Referrer: ") m.referrer
            ++ (field_lines (codes "Session: ") m.session ++ []))
lines-fields m w =
    rw
      (
        lines-field_line (codes "Query: ") m.query
            (field_line (codes "Referrer: ") m.referrer ++ field_line (codes "Session: ") m.session)
            refl w.query,
        lines-field_line (codes "Referrer: ") m.referrer (field_line (codes "Session: ") m.session)
            refl w.referrer,
        sym (append-nil (field_line (codes "Session: ") m.session)),
        lines-field_line (codes "Session: ") m.session [] refl w.session,
      )
      (unfold lines in refl)

module _ (heap : GetHeap) (g : Generous heap) where
  queried :
      (o : Option Text)
      → OptionalValue o
      → for_each (get_step heap) no_fields (field_lines (codes "Query: ") o)
        ≡ ok (record no_fields { query = o; seen_query = is_some o })
  unfolding for_each get_step get_field text_eq
  queried none h = refl
  queried (some value) h =
      rw
        (
          parse_control_field-label heap.diagnostics (codes "Query: ") query_key value query-IsLabel
              h,
          g.query (len value),
        )
        refl

  referred :
      (q : Option Text) (o : Option Text)
      → OptionalValue o
      → for_each
          (get_step heap)
          (record no_fields { query = q; seen_query = is_some q })
          (field_lines (codes "Referrer: ") o)
        ≡ ok (record no_fields {
          query = q;
          referrer = o;
          seen_query = is_some q;
          seen_referrer = is_some o;
        })
  unfolding for_each get_step get_field text_eq
  referred q none h = refl
  referred q (some value) h =
      rw
        (
          parse_control_field-label heap.diagnostics (codes "Referrer: ") referrer_key value
              referrer-IsLabel h,
          g.referrer (len value),
        )
        refl

  tokened :
      (q r : Option Text) (o : Option Text)
      → OptionalValue o
      → for_each
          (get_step heap)
          (record no_fields {
            query = q;
            referrer = r;
            seen_query = is_some q;
            seen_referrer = is_some r;
          })
          (field_lines (codes "Session: ") o)
        ≡ ok (record {
          query = q;
          referrer = r;
          session = o;
          seen_query = is_some q;
          seen_referrer = is_some r;
          seen_session = is_some o;
        })
  unfolding for_each get_step get_field text_eq
  tokened q r none h = refl
  tokened q r (some value) h =
      rw
        (
          parse_control_field-label heap.diagnostics (codes "Session: ") session_key value
              session-IsLabel h,
          g.session (len value),
        )
        refl

  for_each-fields :
      (m : GetMessage)
      → IsGet m
      → for_each (get_step heap) no_fields (
          field_lines (codes "Query: ") m.query
          ++ (field_lines (codes "Referrer: ") m.referrer
              ++ (field_lines (codes "Session: ") m.session ++ [])))
        ≡ ok (record {
          query = m.query;
          referrer = m.referrer;
          session = m.session;
          seen_query = is_some m.query;
          seen_referrer = is_some m.referrer;
          seen_session = is_some m.session;
        })
  for_each-fields m w =
      rw
        (
          for_each-append (get_step heap) no_fields (field_lines (codes "Query: ") m.query) (
              field_lines (codes "Referrer: ") m.referrer
              ++ (field_lines (codes "Session: ") m.session ++ [])),
          queried m.query w.query,
          for_each-append (get_step heap)
              (record no_fields { query = m.query; seen_query = is_some m.query })
              (field_lines (codes "Referrer: ") m.referrer)
              (field_lines (codes "Session: ") m.session ++ []),
          referred m.query m.referrer w.referrer,
          append-nil (field_lines (codes "Session: ") m.session),
          tokened m.query m.referrer m.session w.session,
        )
        refl

  parse-get_body :
      (m : GetMessage)
      → IsGet m
      → len (get_body m) ≤ max_control_message_size
      → parse heap (get_body m) ≡ ok m
  unfolding parse
  parse-get_body m w h = rw (in_bound (len (get_body m)) h) (
      unfold get_body in
      rw
        (
          lines-label (codes "GET ") m.path
              (field_line (codes "Query: ") m.query
                ++ (field_line (codes "Referrer: ") m.referrer
                    ++ field_line (codes "Session: ") m.session))
              refl w.path.visible,
          strip_prefix-append (codes "GET ") m.path,
          lines-fields m w,
          g.path (len m.path),
          w.path.full,
          w.path.visible,
          for_each-fields m w,
        )
        refl)

  -- With an allocator that grants every request, a GET message is written and parsed back to itself, if
  -- its path and its fields are not empty and have no control character, and the body is within the limit.
  pub parse-serialize_get :
      (m : GetMessage)
      → IsGet m
      → len (get_body m) ≤ max_control_message_size
      → (serialize heap m >>= parse heap) ≡ ok m
  parse-serialize_get m w h =
      rw (serialize-fits heap m g (subst (λ n. n ≤ max_control_message_size) (len-get_body m) h))
        (parse-get_body m w h)
