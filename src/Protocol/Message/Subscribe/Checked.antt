-- ===== src/Protocol/Message/Subscribe/Checked.antt =====
-- crates/dustnet-core/src/protocol/message.rs: the check of a SUBSCRIBE body and its parser agree.
use dustnet.Base.{
  ℕ, Bool, true, false, not, ◌&&◌, ◌||◌, Option, List, [], ◌∷◌, ◌≡◌, refl, sym, ap, ◌∙◌, Bool-cases,
  inl, inr,
}
use dustnet.Base.Text.{Text, codes, len, text_eq, text_eq_iff}
use dustnet.Protocol.Diagnostic.{diagnostic, write_fmt, write_str, floor_boundary}
use dustnet.Protocol.Error.{subscribe, invalid_message, Result, ok, err, ◌>>=◌}
use dustnet.Protocol.Holds.{Holds, Holds-any, Holds->>=, Holds-if}
use dustnet.Protocol.Message.Fields.{
  max_control_message_size, enforce_message_limit, try_owned_string, invalid, parse_control_field,
  validate_primary_value, for_each, for_each-Holds, for_each-follows, >>=-follows,
}
use dustnet.Protocol.Message.Input.Checked.{is_some}
use dustnet.Protocol.Message.Subscribe.{
  SubscribeMode, SubscribeMessage, SubscribeHeap, SubscribeFields, region_key, mode_key, token_key,
  refused_field, subscribe_field, subscribe_step, no_fields, subscribe_line, parse, key_index,
  mark_key, check_step, last_seen, validate_subscribe_body,
}

-- The allocator grants every request.
pub record Generous (heap : SubscribeHeap) : Type 0 where
  pub path : (n : ℕ) → heap.path n ≡ true
  pub region : (n : ℕ) → heap.region n ≡ true
  pub session : (n : ℕ) → heap.session n ≡ true
  pub diagnostics : (n : ℕ) → heap.diagnostics n ≡ true

-- the flags of the fields that were seen
abbrev flags : SubscribeFields → List Bool
flags fields = fields.seen_region ∷ fields.seen_mode ∷ fields.seen_session ∷ []

-- The formatted text is the one that the parser has in full.
duplicate-Mode :
    (granted : ℕ → Bool)
    → ((n : ℕ) → granted n ≡ true)
    → invalid granted (codes "duplicate SUBSCRIBE field: " ∷ mode_key ∷ [])
      ≡ invalid_message (codes "duplicate SUBSCRIBE field: Mode")
unfolding diagnostic write_fmt write_str floor_boundary
duplicate-Mode granted g = rw (g 27, g 4) refl

region_alone :
    (key : Text)
    → text_eq key region_key ≡ true
    → (text_eq key mode_key ≡ false) × (text_eq key token_key ≡ false)
region_alone key e =
    rw ((text_eq_iff key region_key).0 e) (unfold text_eq in refl, unfold text_eq in refl)

mode_alone : (key : Text) → text_eq key mode_key ≡ true → text_eq key token_key ≡ false
mode_alone key e = rw ((text_eq_iff key mode_key).0 e) (unfold text_eq in refl)

module _ (heap : SubscribeHeap) (g : Generous heap) (region : Text) (mode : SubscribeMode)
    (session : Option Text) where
  abbrev state : Bool → Bool → Bool → SubscribeFields
  state r m s = record {
    region = region;
    mode = mode;
    session = session;
    seen_region = r;
    seen_mode = m;
    seen_session = s;
  }

  mark_mode-subscribe_field :
      (r m s : Bool) (key value : Text)
      → text_eq key region_key ≡ false
      → text_eq key mode_key ≡ true
      → mark_key heap (r ∷ m ∷ s ∷ []) key value (key_index key)
        ≡ (subscribe_field heap (state r m s) key value >>= λ t. ok (flags t))
  unfolding subscribe_field
  mark_mode-subscribe_field r m s key value e f = elim (Bool-cases m) [
    | inl k ↦
        rw (k, e, f, mode_alone key f)
          (ap err (
            ap (λ t. invalid heap.diagnostics (codes "duplicate SUBSCRIBE field: " ∷ t ∷ []))
              ((text_eq_iff key mode_key).0 f)
            ∙ duplicate-Mode heap.diagnostics g.diagnostics))
    | inr k ↦ elim (Bool-cases (text_eq value (codes "delta"))) [
      | inl q ↦ rw (k, e, f, q) (rw f refl)
      | inr q ↦ elim (Bool-cases (text_eq value (codes "replace"))) [
        | inl p ↦ rw (k, e, f, q, p) (rw f refl)
        | inr p ↦ rw (k, e, f, q, p, mode_alone key f) (rw f refl)
      ]
    ]
  ]

  mark_key-subscribe_field :
      (r m s : Bool) (key value : Text)
      → mark_key heap (r ∷ m ∷ s ∷ []) key value (key_index key)
        ≡ (subscribe_field heap (state r m s) key value >>= λ t. ok (flags t))
  unfolding subscribe_field
  mark_key-subscribe_field r m s key value = elim (Bool-cases (text_eq key region_key)) [
    | inl e ↦
        let (x, y) = region_alone key e in
        elim (Bool-cases r) [
          | inl k ↦ rw (k, e, x, y) refl
          | inr k ↦ rw (k, e, x, g.region (len value)) refl
        ]
    | inr e ↦ elim (Bool-cases (text_eq key mode_key)) [
      | inl f ↦ unfold subscribe_field in mark_mode-subscribe_field r m s key value e f
      | inr f ↦ elim (Bool-cases (text_eq key token_key)) [
        | inl h ↦ elim (Bool-cases s) [
          | inl k ↦ rw (k, e, f, h) refl
          | inr k ↦ rw (k, e, f, h, g.session (len value)) (rw f refl)
        ]
        | inr h ↦ rw (e, f, h) refl
      ]
    ]
  ]

check_step-subscribe_step :
    (heap : SubscribeHeap) (fields : SubscribeFields) (line : Text)
    → Generous heap
    → check_step heap (flags fields) line ≡ (subscribe_step heap fields line >>= λ t. ok (flags t))
unfolding check_step subscribe_step
check_step-subscribe_step heap fields line g =
    >>=-follows (parse_control_field heap.diagnostics line) _ _ (λ t. ok (flags t))
      λ field.
        mark_key-subscribe_field heap g fields.region fields.mode fields.session fields.seen_region
          fields.seen_mode fields.seen_session field.0 field.1

-- A token is there if and only if its field was seen.
abbrev SessionSeen : SubscribeFields → Type 0
SessionSeen fields = is_some fields.session ≡ fields.seen_session

refused_field-SessionSeen :
    (heap : SubscribeHeap) (m : Bool) (key value : Text)
    → Holds SessionSeen (refused_field heap m key value)
refused_field-SessionSeen heap m key value =
    Holds-if SessionSeen (text_eq key region_key || text_eq key token_key) _ _ (λ _. tt)
      λ _.
        Holds-if SessionSeen (text_eq key mode_key) _ _
          (λ _. Holds-if SessionSeen m _ _ (λ _. tt) (λ _. tt)) (λ _. tt)

subscribe_step-SessionSeen :
    (heap : SubscribeHeap) (fields : SubscribeFields) (line : Text)
    → SessionSeen fields
    → Holds SessionSeen (subscribe_step heap fields line)
unfolding subscribe_step subscribe_field
subscribe_step-SessionSeen heap fields line h =
    Holds->>= (λ f. Unit {0}) SessionSeen (parse_control_field heap.diagnostics line) _
      (Holds-any (parse_control_field heap.diagnostics line))
      λ field _.
        Holds-if SessionSeen (text_eq field.0 region_key && not fields.seen_region) _ _
          (λ _. copied heap.region field.1 _ λ t. h)
          λ _.
            Holds-if SessionSeen
              (text_eq field.0 mode_key && not fields.seen_mode && text_eq field.1 (codes "delta"))
              _ _ (λ _. h)
              λ _.
                Holds-if SessionSeen
                  (text_eq field.0 mode_key
                    && not fields.seen_mode
                    && text_eq field.1 (codes "replace"))
                  _ _ (λ _. h)
                  λ _.
                    Holds-if SessionSeen (text_eq field.0 token_key && not fields.seen_session) _
                      (refused_field heap fields.seen_mode field.0 field.1)
                      (λ _. copied heap.session field.1 _ λ t. refl)
                      (λ _. refused_field-SessionSeen heap fields.seen_mode field.0 field.1)
  where
    copied :
        (granted : ℕ → Bool) (value : Text) (f : Text → Result SubscribeFields)
        → ((t : Text) → Holds SessionSeen (f t))
        → Holds SessionSeen (try_owned_string granted value >>= f)
    copied granted value f k =
        Holds->>= (λ f. Unit {0}) SessionSeen (try_owned_string granted value) f
          (Holds-any (try_owned_string granted value)) (λ t _. k t)

-- With an allocator that grants every request, the check of a body that assembles nothing answers as the
-- parser does: it refuses the same bodies with the same errors, and for the others it tells whether the
-- message has a session token.
pub validate_subscribe_body-parse :
    (heap : SubscribeHeap) (body : Text)
    → Generous heap
    → validate_subscribe_body heap body ≡ (parse heap body >>= λ m. ok (is_some m.session))
unfolding validate_subscribe_body parse
validate_subscribe_body-parse heap body g =
    >>=-follows (enforce_message_limit subscribe (len body) max_control_message_size) _ _ k λ _.
      >>=-follows (subscribe_line heap body) _ _ k λ head. rw (g.path (len head.0)) (
        >>=-follows (validate_primary_value heap.diagnostics (codes "SUBSCRIBE path") head.0) _ _ k
          λ _. loops head)
  where
    k : SubscribeMessage → Result Bool
    k m = ok (is_some m.session)

    message : Text → SubscribeFields → SubscribeMessage
    message path t = record { path = path; region = t.region; mode = t.mode; session = t.session }

    same :
        (path : Text) (r : Result SubscribeFields)
        → Holds SessionSeen r
        → ((r >>= λ t. ok (flags t)) >>= λ seen. ok (last_seen seen))
          ≡ ((r >>= λ t. ok (message path t)) >>= k)
    same path (ok t) h = ap ok (sym h)
    same path (err e) h = refl

    loops :
        (head : Text × List Text)
        → (for_each (check_step heap) (false ∷ false ∷ false ∷ []) head.1 >>= λ seen.
            ok (last_seen seen))
          ≡ ((for_each (subscribe_step heap) no_fields head.1 >>= λ t. ok (message head.0 t)) >>= k)
    loops head =
        ap (λ r. r >>= λ seen. ok (last_seen seen))
          (for_each-follows flags (subscribe_step heap) (check_step heap) no_fields head.1
            (λ s l. check_step-subscribe_step heap s l g))
        ∙ same head.0 (for_each (subscribe_step heap) no_fields head.1) (
            for_each-Holds SessionSeen (subscribe_step heap) no_fields head.1
              (λ s l h. subscribe_step-SessionSeen heap s l h) refl)
