-- ===== src/Serialize/Written.antt =====
-- serialize.rs: what `to_aml` writes, and the normalisations that it names.
use dustnet.Base.{
  true, List, [], ◌∷◌, ◌++◌, append_assoc, ◌≡◌, refl, ◌∙◌, ap, inl, inr, arith, All, Bool-cases,
}
use dustnet.Base.Text.{Text}
use dustnet.Scanner.Token.{Attribute, Token, open_tag, close_tag, text, eof}
use dustnet.Serialize.{
  Serialized, is_valid_name, is_valid_char, push_text, push_attr_value, push_value, push_end,
  push_attribute, push_attributes, push_token, to_aml, >>=-eq-ok,
}
use dustnet.Serialize as S
use dustnet.Serialize.Attributes.{written}
use dustnet.Serialize.Tokens.{token_text}
use dustnet.Serialize.Stream.{stream_text}

abbrev pub NamesValid : Token → Type 0
NamesValid (text t) = Unit
NamesValid (open_tag name as_ closing) =
    (is_valid_name name ≡ true) × All (λ a. is_valid_name a.name ≡ true) as_
NamesValid (close_tag name) = (is_valid_name name ≡ true) × Unit {0}
NamesValid eof = Unit

push_attribute-written :
    (a : Attribute) {t : Text}
    → push_attribute a ≡ S.ok t
    → (is_valid_name a.name ≡ true) × (t ≡ b' ' ∷ (a.name ++ push_value a.value))
unfolding push_attribute
push_attribute-written a {t} e = ground arith

push_attributes-written :
    (as_ : List Attribute) {t : Text}
    → push_attributes as_ ≡ S.ok t
    → All (λ a. is_valid_name a.name ≡ true) as_ × (t ≡ written as_)
unfolding push_attributes
push_attributes-written [] e = (tt, cc)
push_attributes-written (a ∷ as_) {t} e =
    let (x, px, e1) = >>=-eq-ok (push_attribute a) _ e in
    let (y, py, e2) = >>=-eq-ok (push_attributes as_) _ e1 in
    let (valid, here) = push_attribute-written a px in
    let (valids, there) = push_attributes-written as_ py in
    let out : t ≡ x ++ y = cc in
    (
      (valid, valids),
      out
          ∙ rw (here, there)
              (ap (λ r. b' ' ∷ r) (append_assoc a.name (push_value a.value) (written as_))),
    )

ok_eq : {A : Type 0} {a b : A} → S.ok a ≡ S.ok b → b ≡ a
ok_eq e = cc

err-ne-ok : {A : Type 0} {x : S.SerializeError} {a : A} → S.err x ≡ S.ok a → ⊥
err-ne-ok e = cc

push_token-token_text :
    (k : Token) {t : Text} → push_token k ≡ S.ok t → NamesValid k × (t ≡ token_text k)
unfolding push_token
push_token-token_text (text u) e = (tt, cc)
push_token-token_text (open_tag name as_ closing) {t} e = elim (Bool-cases (is_valid_name name)) [
  | inl v ↦
      let e' : S.◌>>=◌ (push_attributes as_) tag ≡ S.ok t = rw v at e in
      let (x, px, e1) = >>=-eq-ok (push_attributes as_) tag e' in
      let (valids, there) = push_attributes-written as_ px in
      let out : t ≡ tag_text x = cc in ((v, valids), out ∙ ap tag_text there)
  | inr v ↦ absurd (err-ne-ok (rw v at e))
]
  where
    tag_text : Text → Text
    tag_text attrs = b'[' ∷ (name ++ (attrs ++ push_end closing))

    tag : Text → Serialized Text
    tag attrs = S.ok (tag_text attrs)
push_token-token_text (close_tag name) {t} e = elim (Bool-cases (is_valid_name name)) [
  | inl v ↦ ((v, tt), ok_eq (rw v at e))
  | inr v ↦ absurd (err-ne-ok (rw v at e))
]
push_token-token_text eof e = (tt, cc)

-- `to_aml` succeeds on valid names alone, and writes the tokens one behind the other.
pub to_aml-stream_text :
    (ts : List Token) {aml : Text}
    → to_aml ts ≡ S.ok aml
    → All NamesValid ts × (aml ≡ stream_text ts)
unfolding to_aml
to_aml-stream_text [] e = (tt, ok_eq e)
to_aml-stream_text (t ∷ ts) {aml} e =
    let (x, px, e1) = >>=-eq-ok (push_token t) _ e in
    let (y, py, e2) = >>=-eq-ok (to_aml ts) _ e1 in
    let (valid, here) = push_token-token_text t px in
    let (valids, there) = to_aml-stream_text ts py in ((valid, valids), ok_eq e2 ∙ rw (here, there))

-- The normalisations that the scanner cannot express: adjacent texts are one, an empty text is
-- none, and `Eof` is not written.
abbrev pub merge : Token → List Token → List Token
merge (text []) ts = ts
merge (text (c ∷ t)) (text u ∷ ts) = text ((c ∷ t) ++ u) ∷ ts
merge eof ts = ts
merge t ts = t ∷ ts

abbrev pub normalize : List Token → List Token
normalize [] = []
normalize (t ∷ ts) = merge t (normalize ts)

push_text-append : (t u : Text) → push_text (t ++ u) ≡ push_text t ++ push_text u
unfolding push_text
push_text-append [] u = refl
push_text-append (c ∷ t) u = ground (arith, push_text-append t u)

stream_text-merge :
    (t : Token) (ts : List Token) → stream_text (merge t ts) ≡ token_text t ++ stream_text ts
stream_text-merge (text []) ts = unfold push_text in refl
stream_text-merge (text (c ∷ t)) (text u ∷ ts) =
    rw (push_text-append (c ∷ t) u)
      (append_assoc (push_text (c ∷ t)) (push_text u) (stream_text ts))
stream_text-merge (text (c ∷ t)) [] = refl
stream_text-merge (text (c ∷ t)) (open_tag _ _ _ ∷ ts) = refl
stream_text-merge (text (c ∷ t)) (close_tag _ ∷ ts) = refl
stream_text-merge (text (c ∷ t)) (eof ∷ ts) = refl
stream_text-merge (open_tag _ _ _) ts = refl
stream_text-merge (close_tag _) ts = refl
stream_text-merge eof ts = refl

pub stream_text-normalize : (ts : List Token) → stream_text (normalize ts) ≡ stream_text ts
stream_text-normalize [] = refl
stream_text-normalize (t ∷ ts) =
    stream_text-merge t (normalize ts) ∙ ap (λ r. token_text t ++ r) (stream_text-normalize ts)
