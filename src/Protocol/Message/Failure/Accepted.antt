-- ===== src/Protocol/Message/Failure/Accepted.antt =====
-- crates/dustnet-core/src/protocol/message.rs: the ERROR bodies that are let through.
use mathlib.Core.Bool.{true≢false}
use dustnet.Base.{
  ℕ, ◌≤◌, Bool, true, false, not, ◌||◌, Option, none, some, List, [], ◌∷◌, ◌++◌, ◌==◌, ltb, any,
  all, ◌≡◌, ◌↔◌, refl, sym, ap, ◌∙◌, arith,
}
use dustnet.Base.Text.{
  Text, codes, len, is_control, is_ascii_digit, text_eq, text_eq_iff, strip_prefix,
  strip_prefix-eq_some, strip_prefix-append,
}
use dustnet.Protocol.Error.{ProtocolError, error, ok, reject, >>=-eq-ok, reject-eq-ok, ok_inj}
use dustnet.Protocol.Message.Failure.{
  ErrorHeap, parse_error_code, message_key, check_step, validate_error_body,
}
use dustnet.Protocol.Message.Failure.Digits.{three_digits}
use dustnet.Protocol.Message.Fields.{
  max_control_message_size, enforce_message_limit, first_line, parse_control_field, for_each,
}
use dustnet.Protocol.Message.Lines.{lines, split_field}
use dustnet.Protocol.Version.{or_else}
use dustnet.Scanner.Tags.{is_empty}

-- A line of the key `Message` and a value, without control characters.
pub record IsMessageLine (line : Text) : Type 0 where
  pub value : Text
  pub visible : any is_control line ≡ false
  pub split : split_field line ≡ some (message_key, value)
  pub full : is_empty value ≡ false

-- one such line at most
abbrev pub AtMostOne : List Text → Type 0
AtMostOne [] = Unit
AtMostOne (line ∷ []) = IsMessageLine line
AtMostOne (first ∷ second ∷ rest) = ⊥

pub record IsErrorBody (body : Text) : Type 0 where
  pub bounded : len body ≤ max_control_message_size
  pub code : Text
  pub fields : List Text
  pub shape : lines body ≡ (codes "ERROR " ++ code) ∷ fields
  pub width : len code ≡ 3
  pub digits : all is_ascii_digit code ≡ true
  pub message : AtMostOne fields

or_else-eq-ok {ℓ} :
    {A : Type ℓ} (e : ProtocolError) (o : Option A) {a : A} → or_else e o ≡ ok a → o ≡ some a
or_else-eq-ok e none h = absurd cc
or_else-eq-ok e (some a) h = cc

or_right : (a b : Bool) → (a || b) ≡ false → b ≡ false
or_right a b h = ground arith

sure : (a : Bool) → not a ≡ false → a ≡ true
sure a h = ground arith

filled : (line : Text) {p : Text × Text} → split_field line ≡ some p → is_empty line ≡ false
unfolding split_field
filled [] h = absurd cc
filled (c ∷ line) h = refl

-- What is checked of a line of the fields.
check_step_iff :
    (heap : ErrorHeap) (seen : Bool) (line : Text)
    → (check_step heap seen line ≡ ok true) ↔ ((seen ≡ false) × IsMessageLine line)
unfolding check_step parse_control_field text_eq
check_step_iff heap seen line = (there, back)
  where
    there : check_step heap seen line ≡ ok true → (seen ≡ false) × IsMessageLine line
    there e =
        let (field, parsed, e1) = >>=-eq-ok (parse_control_field heap.diagnostics line) _ e in
        let (_, known, e2) = >>=-eq-ok (reject (not (text_eq field.0 message_key)) _) _ e1 in
        let (_, once, e3) = >>=-eq-ok (reject seen _) _ e2 in
        let (_, clean, p1) = >>=-eq-ok (reject (is_empty line || any is_control line) _) _ parsed in
        let (pair, split, p2) = >>=-eq-ok (or_else _ (split_field line)) _ p1 in
        let (_, full, p3) = >>=-eq-ok (reject (is_empty pair.0 || is_empty pair.1) _) _ p2 in
        (
          reject-eq-ok seen _ once,
          made field pair (or_else-eq-ok _ (split_field line) split) (ok_inj p3)
              (reject-eq-ok _ _ clean) (reject-eq-ok _ _ full) (reject-eq-ok _ _ known),
        )
      where
        made :
            (field pair : Text × Text)
            → split_field line ≡ some pair
            → pair ≡ field
            → (is_empty line || any is_control line) ≡ false
            → (is_empty pair.0 || is_empty pair.1) ≡ false
            → not (text_eq field.0 message_key) ≡ false
            → IsMessageLine line
        made field pair split same clean full known = record {
          value = pair.1;
          visible = or_right (is_empty line) (any is_control line) clean;
          split =
              split
              ∙ ap some (λ i. (
                (ap (λ f. f.0) same
                      ∙ (text_eq_iff field.0 message_key).0
                          (sure (text_eq field.0 message_key) known))
                    i,
                pair.1,
              ));
          full = or_right (is_empty pair.0) (is_empty pair.1) full;
        }

    back : ((seen ≡ false) × IsMessageLine line) → check_step heap seen line ≡ ok true
    back (q, m) = rw (q, m.visible, filled line m.split, m.split, m.full) refl

check_step-true :
    (heap : ErrorHeap) (seen : Bool) (line : Text) {t : Bool}
    → check_step heap seen line ≡ ok t
    → t ≡ true
unfolding check_step
check_step-true heap seen line {t} e =
    let (field, _, e1) = >>=-eq-ok (parse_control_field heap.diagnostics line) _ e in
    let (_, _, e2) = >>=-eq-ok (reject (not (text_eq field.0 message_key)) _) _ e1 in
    let (_, _, e3) = >>=-eq-ok (reject seen _) _ e2 in sym (ok_inj e3)

check_fields :
    (heap : ErrorHeap) (fields : List Text) {seen : Bool}
    → for_each (check_step heap) false fields ≡ ok seen
    → AtMostOne fields
unfolding for_each
check_fields heap [] e = tt
check_fields heap (line ∷ []) e =
    let (t, one, _) = >>=-eq-ok (check_step heap false line) _ e in
    ((check_step_iff heap false line).0
      (one ∙ ap ok (check_step-true heap false line {t = t} one))).1
check_fields heap (line ∷ next ∷ rest) e =
    let (t, one, e1) = >>=-eq-ok (check_step heap false line) _ e in
    let (u, two, e2) = >>=-eq-ok (check_step heap t next) _ e1 in
    let first = check_step-true heap false line {t = t} one in
    let second = check_step-true heap t next {t = u} two in
    true≢false (sym first ∙ ((check_step_iff heap t next).0 (two ∙ ap ok second)).0)

fields-checked :
    (heap : ErrorHeap) (fields : List Text)
    → AtMostOne fields
    → (seen : Bool) × (for_each (check_step heap) false fields ≡ ok seen)
unfolding for_each
fields-checked heap [] m = (false, refl)
fields-checked heap (line ∷ []) m = (true, rw ((check_step_iff heap false line).1 (refl, m)) refl)
fields-checked heap (line ∷ next ∷ rest) m = absurd m

first_line-eq-ok :
    (empty : Text) (ls : List Text) {r : Text × List Text}
    → first_line empty ls ≡ ok r
    → ls ≡ r.0 ∷ r.1
first_line-eq-ok empty [] e = absurd cc
first_line-eq-ok empty (l ∷ ls) e = λ i. (ok_inj e i).0 ∷ (ok_inj e i).1

-- The check accepts exactly the bodies of this form.
pub validate_error_body_iff :
    (heap : ErrorHeap) (body : Text) → (validate_error_body heap body ≡ ok tt) ↔ IsErrorBody body
unfolding validate_error_body parse_error_code
validate_error_body_iff heap body = (there, back)
  where
    there : validate_error_body heap body ≡ ok tt → IsErrorBody body
    there e =
        let (_, small, e1) =
          >>=-eq-ok (enforce_message_limit error (len body) max_control_message_size) _ e in
        let (first, begun, e2) =
          >>=-eq-ok (first_line (codes "empty ERROR body") (lines body)) _ e1 in
        let (code, stripped, e3) =
          >>=-eq-ok (or_else _ (strip_prefix (codes "ERROR ") first.0)) _ e2 in
        let (n, numbered, e4) = >>=-eq-ok (parse_error_code heap.diagnostics code) _ e3 in
        let (_, three, _) =
          >>=-eq-ok (reject (not (len code == 3) || not (all is_ascii_digit code)) _) _ numbered in
        let (seen, checked, _) = >>=-eq-ok (for_each (check_step heap) false first.1) _ e4 in
        let (width, digits) = both (len code) (all is_ascii_digit code) (reject-eq-ok _ _ three) in
        record {
          bounded = below (len body) (reject-eq-ok _ _ small);
          code = code;
          fields = first.1;
          shape =
              first_line-eq-ok _ (lines body) {r = first} begun
              ∙ ap (λ l. l ∷ first.1)
                  (strip_prefix-eq_some (codes "ERROR ") first.0 {rest = code}
                    (or_else-eq-ok _ (strip_prefix (codes "ERROR ") first.0) stripped));
          width = width;
          digits = digits;
          message = check_fields heap first.1 {seen = seen} checked;
        }
      where
        below : (n : ℕ) → ltb max_control_message_size n ≡ false → n ≤ max_control_message_size
        below n h = ground arith

        both : (n : ℕ) (b : Bool) → (not (n == 3) || not b) ≡ false → (n ≡ 3) × (b ≡ true)
        both n b h = ground arith

    back : IsErrorBody body → validate_error_body heap body ≡ ok tt
    back w =
        let (n, parsed) = three_digits w.code w.width w.digits in
        let (seen, checked) = fields-checked heap w.fields w.message in
        rw
          (
            above (len body) w.bounded,
            w.shape,
            strip_prefix-append (codes "ERROR ") w.code,
            w.width,
            w.digits,
            parsed,
            checked,
          )
          refl
      where
        above : (n : ℕ) → n ≤ max_control_message_size → ltb max_control_message_size n ≡ false
        above n h = ground arith
