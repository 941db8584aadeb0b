-- ===== src/Protocol/Message/Get/Checked.antt =====
-- crates/dustnet-core/src/protocol/message.rs: the check of a GET body and its parser agree.
use dustnet.Base.{
  ℕ, Bool, true, false, not, ◌&&◌, ◌||◌, Option, List, [], ◌∷◌, ◌≡◌, refl, sym, ap, ◌∙◌, Bool-cases,
  inl, inr,
}
use dustnet.Base.Text.{Text, codes, len, text_eq, text_eq_iff}
use dustnet.Protocol.Error.{get, Result, ok, err, ◌>>=◌}
use dustnet.Protocol.Holds.{Holds, Holds-any, Holds->>=, Holds-if}
use dustnet.Protocol.Message.Fields.{
  max_control_message_size, enforce_message_limit, try_owned_string, parse_control_field,
  validate_primary_value, for_each, for_each-Holds, for_each-follows, >>=-follows,
}
use dustnet.Protocol.Message.Get.{
  GetMessage, GetHeap, GetFields, query_key, referrer_key, session_key, refused_field, get_field,
  get_step, no_fields, get_line, parse, key_index, mark_key, check_step, third, validate_get_body,
}
use dustnet.Protocol.Message.Input.Checked.{is_some}

-- The allocator grants every copy.
pub record Generous (heap : GetHeap) : Type 0 where
  pub path : (n : ℕ) → heap.path n ≡ true
  pub query : (n : ℕ) → heap.query n ≡ true
  pub referrer : (n : ℕ) → heap.referrer n ≡ true
  pub session : (n : ℕ) → heap.session n ≡ true
  pub body : (n : ℕ) → heap.body n ≡ true

-- the flags of the fields that were seen
abbrev flags : GetFields → List Bool
flags fields = fields.seen_query ∷ fields.seen_referrer ∷ fields.seen_session ∷ []

query_alone :
    (key : Text)
    → text_eq key query_key ≡ true
    → (text_eq key referrer_key ≡ false) × (text_eq key session_key ≡ false)
query_alone key e =
    rw ((text_eq_iff key query_key).0 e) (unfold text_eq in refl, unfold text_eq in refl)

referrer_alone : (key : Text) → text_eq key referrer_key ≡ true → text_eq key session_key ≡ false
referrer_alone key e = rw ((text_eq_iff key referrer_key).0 e) (unfold text_eq in refl)

module _ (heap : GetHeap) (g : Generous heap) (query referrer session : Option Text) where
  abbrev state : Bool → Bool → Bool → GetFields
  state q r s = record {
    query = query;
    referrer = referrer;
    session = session;
    seen_query = q;
    seen_referrer = r;
    seen_session = s;
  }

  mark_key-get_field :
      (q r s : Bool) (key value : Text)
      → mark_key heap (q ∷ r ∷ s ∷ []) key (key_index key)
        ≡ (get_field heap (state q r s) key value >>= λ t. ok (flags t))
  unfolding get_field
  mark_key-get_field q r s key value = elim (Bool-cases (text_eq key query_key)) [
    | inl e ↦
        let (x, y) = query_alone key e in
        elim (Bool-cases q) [
          | inl k ↦ rw (k, e, x, y) refl
          | inr k ↦ rw (k, e, g.query (len value)) refl
        ]
    | inr e ↦ elim (Bool-cases (text_eq key referrer_key)) [
      | inl f ↦ elim (Bool-cases r) [
        | inl k ↦ rw (k, e, f, referrer_alone key f) refl
        | inr k ↦ rw (k, e, f, g.referrer (len value)) refl
      ]
      | inr f ↦ elim (Bool-cases (text_eq key session_key)) [
        | inl h ↦ elim (Bool-cases s) [
          | inl k ↦ rw (k, e, f, h) refl
          | inr k ↦ rw (k, e, f, h, g.session (len value)) refl
        ]
        | inr h ↦ rw (e, f, h) refl
      ]
    ]
  ]

check_step-get_step :
    (heap : GetHeap) (fields : GetFields) (line : Text)
    → Generous heap
    → check_step heap (flags fields) line ≡ (get_step heap fields line >>= λ t. ok (flags t))
unfolding check_step get_step
check_step-get_step heap fields line g =
    >>=-follows (parse_control_field heap.diagnostics line) _ _ (λ t. ok (flags t))
      λ field.
        mark_key-get_field heap g fields.query fields.referrer fields.session fields.seen_query
          fields.seen_referrer fields.seen_session field.0 field.1

-- A token is there if and only if its field was seen.
abbrev SessionSeen : GetFields → Type 0
SessionSeen fields = is_some fields.session ≡ fields.seen_session

refused_field-SessionSeen :
    (heap : GetHeap) (key : Text) → Holds SessionSeen (refused_field heap key)
refused_field-SessionSeen heap key =
    Holds-if SessionSeen
      (text_eq key query_key || text_eq key referrer_key || text_eq key session_key) _ _ (λ _. tt)
      (λ _. tt)

get_step-SessionSeen :
    (heap : GetHeap) (fields : GetFields) (line : Text)
    → SessionSeen fields
    → Holds SessionSeen (get_step heap fields line)
unfolding get_step get_field
get_step-SessionSeen heap fields line h =
    Holds->>= (λ f. Unit {0}) SessionSeen (parse_control_field heap.diagnostics line) _
      (Holds-any (parse_control_field heap.diagnostics line))
      λ field _.
        Holds-if SessionSeen (text_eq field.0 query_key && not fields.seen_query) _ _
          (λ _. copied heap.query field.1 _ λ t. h)
          λ _.
            Holds-if SessionSeen (text_eq field.0 referrer_key && not fields.seen_referrer) _ _
              (λ _. copied heap.referrer field.1 _ λ t. h)
              λ _.
                Holds-if SessionSeen (text_eq field.0 session_key && not fields.seen_session) _
                  (refused_field heap field.0) (λ _. copied heap.session field.1 _ λ t. refl)
                  (λ _. refused_field-SessionSeen heap field.0)
  where
    copied :
        (granted : ℕ → Bool) (value : Text) (f : Text → Result GetFields)
        → ((t : Text) → Holds SessionSeen (f t))
        → Holds SessionSeen (try_owned_string granted value >>= f)
    copied granted value f k =
        Holds->>= (λ f. Unit {0}) SessionSeen (try_owned_string granted value) f
          (Holds-any (try_owned_string granted value)) (λ t _. k t)

-- With an allocator that grants every copy, the check of a body that allocates nothing answers as the
-- parser does: it refuses the same bodies with the same errors, and for the others it tells whether the
-- message has a session token.
pub validate_get_body-parse :
    (heap : GetHeap) (body : Text)
    → Generous heap
    → validate_get_body heap body ≡ (parse heap body >>= λ m. ok (is_some m.session))
unfolding validate_get_body parse
validate_get_body-parse heap body g =
    >>=-follows (enforce_message_limit get (len body) max_control_message_size) _ _ k λ _.
      >>=-follows (get_line heap body) _ _ k λ head. rw (g.path (len head.0)) (
        >>=-follows (validate_primary_value heap.diagnostics (codes "GET path") head.0) _ _ k
          λ _. loops head)
  where
    k : GetMessage → Result Bool
    k m = ok (is_some m.session)

    message : Text → GetFields → GetMessage
    message path t = record {
      path = path;
      query = t.query;
      referrer = t.referrer;
      session = t.session;
    }

    same :
        (path : Text) (r : Result GetFields)
        → Holds SessionSeen r
        → ((r >>= λ t. ok (flags t)) >>= λ seen. ok (third seen))
          ≡ ((r >>= λ t. ok (message path t)) >>= k)
    same path (ok t) h = ap ok (sym h)
    same path (err e) h = refl

    loops :
        (head : Text × List Text)
        → (for_each (check_step heap) (false ∷ false ∷ false ∷ []) head.1 >>= λ seen.
            ok (third seen))
          ≡ ((for_each (get_step heap) no_fields head.1 >>= λ t. ok (message head.0 t)) >>= k)
    loops head =
        ap (λ r. r >>= λ seen. ok (third seen))
          (for_each-follows flags (get_step heap) (check_step heap) no_fields head.1
            (λ s l. check_step-get_step heap s l g))
        ∙ same head.0 (for_each (get_step heap) no_fields head.1) (
            for_each-Holds SessionSeen (get_step heap) no_fields head.1
              (λ s l h. get_step-SessionSeen heap s l h) refl)
