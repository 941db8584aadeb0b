-- ===== src/Serialize/Plain.antt =====
-- serialize.rs: what the serializer writes of characters that go through UTF-8 and the filter goes
-- through them too.
use dustnet.Base.{
  ℕ, Bool, true, false, List, [], ◌∷◌, ◌++◌, ◌≡◌, inl, inr, arith, All, All-append, Bool-cases,
  ◌==◌, all,
}
use dustnet.Base.Text.{Text}
use dustnet.Base.Utf8.{IsChar}
use dustnet.Scanner.Escape.Output.{IsAdmitted}
use dustnet.Scanner.Token.{
  AttributeValue, string, ident, flag, Attribute, Token, open_tag, close_tag, text, eof,
}
use dustnet.Serialize.{
  is_valid_name, is_valid_char, push_text, push_attr_value, push_value, push_end,
}
use dustnet.Serialize.Tags.{valid_name-chars}
use dustnet.Serialize.Attributes.{written}
use dustnet.Serialize.Chars.{all-cons}
use dustnet.Serialize.Tokens.{token_text}
use dustnet.Serialize.Stream.{stream_text}
use dustnet.Serialize.Written.{NamesValid}

-- A character that goes through UTF-8 and through the filter.
pub record IsPlain (c : ℕ) : Type 0 where
  pub admitted : IsAdmitted c
  pub scalar : IsChar c

abbrev pub ValuePlain : AttributeValue → Type 0
ValuePlain (string v) = All IsPlain v
ValuePlain (ident v) = All IsPlain v
ValuePlain flag = Unit

abbrev pub TokenPlain : Token → Type 0
TokenPlain (text t) = All IsPlain t
TokenPlain (open_tag name as_ closing) = All (λ a. ValuePlain a.value) as_
TokenPlain (close_tag name) = Unit
TokenPlain eof = Unit

push_text-IsPlain : (t : Text) → All IsPlain t → All IsPlain (push_text t)
unfolding push_text
push_text-IsPlain [] h = tt
push_text-IsPlain (c ∷ t) h = elim (Bool-cases (c == b'[')) [
  | inl a ↦ rw a ((omega arith), ((omega arith), push_text-IsPlain t h.1))
  | inr a ↦ rw a (elim (Bool-cases (c == b']')) [
    | inl b ↦ rw b ((omega arith), ((omega arith), push_text-IsPlain t h.1))
    | inr b ↦ rw b (h.0, push_text-IsPlain t h.1)
  ])
]

push_attr_value-IsPlain : (v : Text) → All IsPlain v → All IsPlain (push_attr_value v)
unfolding push_attr_value
push_attr_value-IsPlain [] h = tt
push_attr_value-IsPlain (c ∷ v) h =
    let rest = push_attr_value-IsPlain v h.1 in
    elim (Bool-cases (c == b'\\')) [
      | inl p ↦ rw p ((omega arith), ((omega arith), rest))
      | inr p ↦ rw p (elim (Bool-cases (c == b'"')) [
        | inl q ↦ rw q ((omega arith), ((omega arith), rest))
        | inr q ↦ rw q (elim (Bool-cases (c == b'\n')) [
          | inl r ↦ rw r ((omega arith), ((omega arith), rest))
          | inr r ↦ rw r (elim (Bool-cases (c == b'\t')) [
            | inl t ↦ rw t ((omega arith), ((omega arith), rest))
            | inr t ↦ rw t (h.0, rest)
          ])
        ])
      ])
    ]

valid_char-IsPlain : (c : ℕ) → is_valid_char c ≡ true → IsPlain c
valid_char-IsPlain c h = ground arith

chars-IsPlain : (s : Text) → all is_valid_char s ≡ true → All IsPlain s
chars-IsPlain [] h = tt
chars-IsPlain (c ∷ s) h =
    (valid_char-IsPlain c (all-cons c s h).0, chars-IsPlain s (all-cons c s h).1)

name-IsPlain : (name : Text) → is_valid_name name ≡ true → All IsPlain name
name-IsPlain name h = chars-IsPlain name (valid_name-chars name h).1

quoted-IsPlain :
    (v : Text) → All IsPlain v → All IsPlain (b'=' ∷ b'"' ∷ (push_attr_value v ++ b'"' ∷ []))
quoted-IsPlain v h = (
  omega arith,
  (
    omega arith,
    All-append IsPlain (push_attr_value v) (b'"' ∷ []) (push_attr_value-IsPlain v h)
        (omega arith, tt),
  ),
)

value-IsPlain : (v : AttributeValue) → ValuePlain v → All IsPlain (push_value v)
value-IsPlain flag h = tt
value-IsPlain (string v) h = quoted-IsPlain v h
value-IsPlain (ident v) h = quoted-IsPlain v h

written-IsPlain :
    (as_ : List Attribute)
    → All (λ a. is_valid_name a.name ≡ true) as_
    → All (λ a. ValuePlain a.value) as_
    → All IsPlain (written as_)
written-IsPlain [] h k = tt
written-IsPlain (a ∷ as_) h k = (
  omega arith,
  All-append IsPlain a.name _ (name-IsPlain a.name h.0) (
      All-append IsPlain (push_value a.value) (written as_) (value-IsPlain a.value k.0)
        (written-IsPlain as_ h.1 k.1)),
)

end-IsPlain : (closing : Bool) → All IsPlain (push_end closing)
end-IsPlain true = (omega arith, (omega arith, (omega arith, tt)))
end-IsPlain false = (omega arith, tt)

token_text-IsPlain : (t : Token) → NamesValid t → TokenPlain t → All IsPlain (token_text t)
token_text-IsPlain (text t) h k = push_text-IsPlain t k
token_text-IsPlain (open_tag name as_ closing) h k = (
  omega arith,
  All-append IsPlain name _ (name-IsPlain name h.0) (
      All-append IsPlain (written as_) (push_end closing) (written-IsPlain as_ h.1 k)
        (end-IsPlain closing)),
)
token_text-IsPlain (close_tag name) h k = (
  omega arith,
  (omega arith, All-append IsPlain name (b']' ∷ []) (name-IsPlain name h.0) (omega arith, tt)),
)
token_text-IsPlain eof h k = tt

pub stream_text-IsPlain :
    (ts : List Token) → All NamesValid ts → All TokenPlain ts → All IsPlain (stream_text ts)
stream_text-IsPlain [] h k = tt
stream_text-IsPlain (t ∷ ts) h k =
    All-append IsPlain (token_text t) (stream_text ts) (token_text-IsPlain t h.0 k.0)
      (stream_text-IsPlain ts h.1 k.1)

pub IsPlain-IsAdmitted : (s : Text) → All IsPlain s → All IsAdmitted s
IsPlain-IsAdmitted [] h = tt
IsPlain-IsAdmitted (c ∷ s) h = (h.0.admitted, IsPlain-IsAdmitted s h.1)

pub IsPlain-IsChar : (s : Text) → All IsPlain s → All IsChar s
IsPlain-IsChar [] h = tt
IsPlain-IsChar (c ∷ s) h = (h.0.scalar, IsPlain-IsChar s h.1)
