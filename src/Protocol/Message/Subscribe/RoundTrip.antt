-- ===== src/Protocol/Message/Subscribe/RoundTrip.antt =====
-- crates/dustnet-core/src/protocol/message.rs: a SUBSCRIBE body that is written is parsed back.
use dustnet.Base.{
  ℕ, ◌+◌, ◌≤◌, Bool, true, false, Option, none, some, [], ◌∷◌, ◌++◌, ltb, any, ◌≡◌, refl, sym, ap,
  subst, arith, append-nil,
}
use dustnet.Base.Text.{Text, codes, len, len-append, is_control, text_eq, strip_prefix-append}
use dustnet.Protocol.Error.{ok, ◌>>=◌}
use dustnet.Protocol.Message.Fields.{max_control_message_size, for_each, field_line}
use dustnet.Protocol.Message.Input.Checked.{is_some}
use dustnet.Protocol.Message.Lines.{lines, split_field}
use dustnet.Protocol.Message.Sizes.{
  IsValue, OptionalValue, field_lines, field_size, len-field_line, IsLabel,
  parse_control_field-label, lines-label, lines-field_line, for_each-append,
}
use dustnet.Protocol.Message.Subscribe.{
  SubscribeMode, replace, delta, SubscribeMessage, SubscribeHeap, region_key, mode_key, token_key,
  subscribe_field, subscribe_step, no_fields, parse, checked_add, add_extra, region_field,
  region_extra, mode_field, mode_extra, add_token, requested_size, subscribe_body, serialize,
}
use dustnet.Protocol.Message.Subscribe.Checked.{Generous}
use dustnet.Protocol.Path.{usize_max}

-- A message whose parts a body can hold.
pub record IsSubscribe (m : SubscribeMessage) : Type 0 where
  pub path : IsValue m.path
  pub region : any is_control m.region ≡ false
  pub session : OptionalValue m.session

region-IsLabel : IsLabel (codes "Region: ") region_key
unfolding split_field
region-IsLabel = record { visible = refl; full = refl; split = λ v. refl; first = λ v. refl }

mode-IsLabel : IsLabel (codes "Mode: ") mode_key
unfolding split_field
mode-IsLabel = record { visible = refl; full = refl; split = λ v. refl; first = λ v. refl }

token-IsLabel : IsLabel (codes "Session: ") token_key
unfolding split_field
token-IsLabel = record { visible = refl; full = refl; split = λ v. refl; first = λ v. refl }

region-Optional : (r : Text) → any is_control r ≡ false → OptionalValue (region_field r)
region-Optional [] h = tt
region-Optional (c ∷ r) h = record { full = refl; visible = h }

mode-Optional : (mode : SubscribeMode) → OptionalValue (mode_field mode)
mode-Optional replace = tt
mode-Optional delta = record { full = refl; visible = refl }

-- the size of a field with its line feed
abbrev line_size : Text → Option Text → ℕ
line_size label o = field_size (label ++ b'\n' ∷ []) o

body_size : SubscribeMessage → ℕ
body_size m =
    len (codes "SUBSCRIBE \n")
    + len m.path
    + line_size (codes "Region: ") (region_field m.region)
    + line_size (codes "Mode: ") (mode_field m.mode)
    + line_size (codes "Session: ") m.session

len-subscribe_body : (m : SubscribeMessage) → len (subscribe_body m) ≡ body_size m
unfolding subscribe_body body_size
len-subscribe_body m =
    let q = field_line (codes "Region: ") (region_field m.region) in
    let r = field_line (codes "Mode: ") (mode_field m.mode) in
    let s = field_line (codes "Session: ") m.session in
    let a = len-append m.path (b'\n' ∷ (q ++ (r ++ s))) in
    let b = len-append q (r ++ s) in
    let c = len-append r s in
    let d = len-field_line (codes "Region: ") (region_field m.region) in
    let e = len-field_line (codes "Mode: ") (mode_field m.mode) in
    let f = len-field_line (codes "Session: ") m.session in omega (arith, a, b, c, d, e, f)

checked_add-fits : (a b : ℕ) → a + b ≤ max_control_message_size → checked_add a b ≡ some (a + b)
checked_add-fits a b h = rw (in_bound (a + b) h) refl
  where
    in_bound : (n : ℕ) → n ≤ max_control_message_size → ltb usize_max n ≡ false
    in_bound n h = ground arith

region_extra-fits :
    (size : ℕ) (o : Option Text)
    → size + line_size (codes "Region: ") o ≤ max_control_message_size
    → add_extra size (region_extra o) ≡ some (size + line_size (codes "Region: ") o)
region_extra-fits size none h = ap some (omega arith)
region_extra-fits size (some r) h =
    rw (checked_add-fits (len (codes "Region: \n")) (len r) (omega arith))
      (checked_add-fits size (len (codes "Region: \n") + len r) h)

mode_extra-fits :
    (size : ℕ) (mode : SubscribeMode)
    → size + line_size (codes "Mode: ") (mode_field mode) ≤ max_control_message_size
    → add_extra size (mode_extra mode) ≡ some (size + line_size (codes "Mode: ") (mode_field mode))
mode_extra-fits size replace h = ap some (omega arith)
mode_extra-fits size delta h = checked_add-fits size (len (codes "Mode: delta\n")) h

add_token-fits :
    (size : ℕ) (o : Option Text)
    → size + line_size (codes "Session: ") o ≤ max_control_message_size
    → add_token o size ≡ some (size + line_size (codes "Session: ") o)
add_token-fits size none h = ap some (omega arith)
add_token-fits size (some t) h =
    rw
      (
        checked_add-fits size (len (codes "Session: \n")) (omega arith),
        checked_add-fits (size + len (codes "Session: \n")) (len t) (omega arith),
      )
      (ap some (omega arith))

in_bound : (n : ℕ) → n ≤ max_control_message_size → ltb max_control_message_size n ≡ false
in_bound n h = ground arith

serialize-fits :
    (heap : SubscribeHeap) (m : SubscribeMessage)
    → ((n : ℕ) → heap.body n ≡ true)
    → body_size m ≤ max_control_message_size
    → serialize heap m ≡ ok (subscribe_body m)
unfolding serialize requested_size body_size
serialize-fits heap m g h =
    let n = len (codes "SUBSCRIBE \n") + len m.path in
    let q = n + line_size (codes "Region: ") (region_field m.region) in
    let r = q + line_size (codes "Mode: ") (mode_field m.mode) in
    let s = r + line_size (codes "Session: ") m.session in
    rw
      (
        checked_add-fits (len (codes "SUBSCRIBE \n")) (len m.path) (omega arith),
        region_extra-fits n (region_field m.region) (omega arith),
        mode_extra-fits q m.mode (omega arith),
        add_token-fits r m.session h,
        in_bound s h,
        g s,
      )
      refl

lines-fields :
    (r t s : Option Text)
    → OptionalValue r
    → OptionalValue t
    → OptionalValue s
    → lines (
        field_line (codes "Region: ") r
        ++ (field_line (codes "Mode: ") t ++ field_line (codes "Session: ") s))
      ≡ field_lines (codes "Region: ") r
        ++ (field_lines (codes "Mode: ") t ++ (field_lines (codes "Session: ") s ++ []))
lines-fields r t s u v w =
    rw
      (
        lines-field_line (codes "Region: ") r
            (field_line (codes "Mode: ") t ++ field_line (codes "Session: ") s) refl u,
        lines-field_line (codes "Mode: ") t (field_line (codes "Session: ") s) refl v,
        sym (append-nil (field_line (codes "Session: ") s)),
        lines-field_line (codes "Session: ") s [] refl w,
      )
      (unfold lines in refl)

-- a mode is there if it was written
abbrev written_mode : SubscribeMode → Bool
written_mode replace = false
written_mode delta = true

module _ (heap : SubscribeHeap) (g : Generous heap) where
  regioned :
      (r : Text)
      → any is_control r ≡ false
      → for_each (subscribe_step heap) no_fields (field_lines (codes "Region: ") (region_field r))
        ≡ ok (record no_fields { region = r; seen_region = is_some (region_field r) })
  unfolding for_each subscribe_step subscribe_field text_eq
  regioned [] h = refl
  regioned (c ∷ r) h =
      rw
        (
          parse_control_field-label heap.diagnostics (codes "Region: ") region_key (c ∷ r)
              region-IsLabel (record { full = refl; visible = h }),
          g.region (len (c ∷ r)),
        )
        refl

  moded :
      (r : Text) (b : Bool) (mode : SubscribeMode)
      → for_each
          (subscribe_step heap)
          (record no_fields { region = r; seen_region = b })
          (field_lines (codes "Mode: ") (mode_field mode))
        ≡ ok (record no_fields {
          region = r;
          mode = mode;
          seen_region = b;
          seen_mode = written_mode mode;
        })
  unfolding for_each subscribe_step subscribe_field text_eq
  moded r b replace = refl
  moded r b delta =
      rw
        (parse_control_field-label heap.diagnostics (codes "Mode: ") mode_key (codes "delta")
          mode-IsLabel (record { full = refl; visible = refl }))
        refl

  tokened :
      (r : Text) (b c : Bool) (mode : SubscribeMode) (o : Option Text)
      → OptionalValue o
      → for_each
          (subscribe_step heap)
          (record no_fields { region = r; mode = mode; seen_region = b; seen_mode = c })
          (field_lines (codes "Session: ") o)
        ≡ ok (record {
          region = r;
          mode = mode;
          session = o;
          seen_region = b;
          seen_mode = c;
          seen_session = is_some o;
        })
  unfolding for_each subscribe_step subscribe_field text_eq
  tokened r b c mode none h = refl
  tokened r b c mode (some value) h =
      rw
        (
          parse_control_field-label heap.diagnostics (codes "Session: ") token_key value
              token-IsLabel h,
          g.session (len value),
        )
        refl

  for_each-fields :
      (m : SubscribeMessage)
      → IsSubscribe m
      → for_each (subscribe_step heap) no_fields (
          field_lines (codes "Region: ") (region_field m.region)
          ++ (field_lines (codes "Mode: ") (mode_field m.mode)
              ++ (field_lines (codes "Session: ") m.session ++ [])))
        ≡ ok (record {
          region = m.region;
          mode = m.mode;
          session = m.session;
          seen_region = is_some (region_field m.region);
          seen_mode = written_mode m.mode;
          seen_session = is_some m.session;
        })
  for_each-fields m w =
      let b = is_some (region_field m.region) in
      rw
        (
          for_each-append (subscribe_step heap) no_fields
              (field_lines (codes "Region: ") (region_field m.region))
              (field_lines (codes "Mode: ") (mode_field m.mode)
                ++ (field_lines (codes "Session: ") m.session ++ [])),
          regioned m.region w.region,
          for_each-append (subscribe_step heap)
              (record no_fields { region = m.region; seen_region = b })
              (field_lines (codes "Mode: ") (mode_field m.mode))
              (field_lines (codes "Session: ") m.session ++ []),
          moded m.region b m.mode,
          append-nil (field_lines (codes "Session: ") m.session),
          tokened m.region b (written_mode m.mode) m.mode m.session w.session,
        )
        refl

  parse-subscribe_body :
      (m : SubscribeMessage)
      → IsSubscribe m
      → len (subscribe_body m) ≤ max_control_message_size
      → parse heap (subscribe_body m) ≡ ok m
  unfolding parse
  parse-subscribe_body m w h = rw (in_bound (len (subscribe_body m)) h) (
      unfold subscribe_body in
      rw
        (
          lines-label (codes "SUBSCRIBE ") m.path
              (field_line (codes "Region: ") (region_field m.region)
                ++ (field_line (codes "Mode: ") (mode_field m.mode)
                    ++ field_line (codes "Session: ") m.session))
              refl w.path.visible,
          strip_prefix-append (codes "SUBSCRIBE ") m.path,
          lines-fields (region_field m.region) (mode_field m.mode) m.session
              (region-Optional m.region w.region) (mode-Optional m.mode) w.session,
          g.path (len m.path),
          w.path.full,
          w.path.visible,
          for_each-fields m w,
        )
        refl)

  -- With an allocator that grants every request, a SUBSCRIBE message is written and parsed back to itself,
  -- if its path and its token are not empty, no part of it has a control character, and the body is within
  -- the limit.
  pub parse-serialize_subscribe :
      (m : SubscribeMessage)
      → ((n : ℕ) → heap.body n ≡ true)
      → IsSubscribe m
      → len (subscribe_body m) ≤ max_control_message_size
      → (serialize heap m >>= parse heap) ≡ ok m
  parse-serialize_subscribe m b w h =
      rw
        (serialize-fits heap m b
          (subst (λ n. n ≤ max_control_message_size) (len-subscribe_body m) h))
        (parse-subscribe_body m w h)
