-- ===== src/Scanner/Values.antt =====
-- scanner/mod.rs: what the loops over names and values take from the input.
use mathlib.Core.Bool.{false≢true}
use dustnet.Base.{
  ℕ, ◌+◌, ◌≤◌, true, [], ◌∷◌, ◌≡◌, inl, inr, refl, arith, length, All, All-append, ◌==◌, all,
  Bool-cases,
}
use dustnet.Base.Text.{Text, to_ascii_lowercase}
use dustnet.Scanner.Escape.Output.{IsAdmitted}
use dustnet.Scanner.Token.{Scan, ok, err}
use dustnet.Scanner.Lexer.{
  is_name_char, skip_whitespace, copy_name, copy_quoted, copy_unquoted, prefixed, unescaped,
  ends_unquoted,
}
use dustnet.Scanner.Ensures.{Ensures}
use dustnet.Serialize.{is_valid_char}

-- A piece taken from the front of `s`, and the rest.
pub record Takes (P : ℕ → Type 0) (s : Text) (p : Text × Text) : Type 0 where
  pub piece : All P p.0
  pub rest : All P p.1
  pub shorter : length p.1 ≤ length s

pub skip_whitespace-Takes :
    (P : ℕ → Type 0) (s : Text) → All P s → Takes P s ([], skip_whitespace s)
unfolding skip_whitespace
skip_whitespace-Takes P [] h = record { piece = tt; rest = tt; shorter = omega arith }
skip_whitespace-Takes P (c ∷ s) h = ground (arith, skip_whitespace-Takes P s h.1)

lowercase-is_valid_char :
    (c : ℕ) → is_name_char c ≡ true → is_valid_char (to_ascii_lowercase c) ≡ true
lowercase-is_valid_char c h = ground arith

-- A scanned name has valid characters only.
pub copy_name-is_valid : (s : Text) → all is_valid_char (copy_name s).0 ≡ true
unfolding copy_name
copy_name-is_valid [] = refl
copy_name-is_valid (c ∷ s) = elim (Bool-cases (is_name_char c)) [
  | inl e ↦ rw (e, lowercase-is_valid_char c e) (copy_name-is_valid s)
  | inr e ↦ rw e
]

pub copy_name-rest : (P : ℕ → Type 0) (s : Text) → All P s → All P (copy_name s).1
unfolding copy_name
copy_name-rest P [] h = tt
copy_name-rest P (c ∷ s) h = elim (Bool-cases (is_name_char c)) [
  | inl e ↦ rw e (copy_name-rest P s h.1)
  | inr e ↦ rw e h
]

-- The cursor moves by the length of the name.
pub length-copy_name : (s : Text) → length (copy_name s).0 + length (copy_name s).1 ≡ length s
unfolding copy_name
length-copy_name [] = omega arith
length-copy_name (c ∷ s) = elim (Bool-cases (is_name_char c)) [
  | inl e ↦ rw e (omega (arith, length-copy_name s))
  | inr e ↦ rw e (omega arith)
]

pub copy_unquoted-Takes : (P : ℕ → Type 0) (s : Text) → All P s → Takes P s (copy_unquoted s)
unfolding copy_unquoted
copy_unquoted-Takes P [] h = record { piece = tt; rest = tt; shorter = omega arith }
copy_unquoted-Takes P (c ∷ s) h = elim (Bool-cases (ends_unquoted c)) [
  | inl e ↦ rw e (record { piece = tt; rest = h; shorter = omega arith })
  | inr e ↦
      let ih = copy_unquoted-Takes P s h.1 in
      rw e (record { piece = (h.0, ih.piece); rest = ih.rest; shorter = omega (arith, ih.shorter) })
]

-- What an escape may stand for, beside the character itself.
pub record Escapes (P : ℕ → Type 0) : Type 0 where
  pub quote : P b'"'
  pub backslash : P b'\\'
  pub newline : P b'\n'
  pub tab : P b'\t'

unescaped-All : (P : ℕ → Type 0) (c : ℕ) → Escapes P → P c → All P (unescaped c)
unescaped-All P c e h = elim (Bool-cases (c == b'"')) [
  | inl a ↦ rw a (e.quote, tt)
  | inr a ↦ rw a (elim (Bool-cases (c == b'\\')) [
    | inl b ↦ rw b (e.backslash, tt)
    | inr b ↦ rw b (elim (Bool-cases (c == b'n')) [
      | inl n ↦ rw n (e.newline, tt)
      | inr n ↦ rw n (elim (Bool-cases (c == b't')) [
        | inl t ↦ rw t (e.tab, tt)
        | inr t ↦ rw t (e.backslash, (h, tt))
      ])
    ])
  ])
]

prefixed-Takes :
    (P : ℕ → Type 0) (s r out : Text) (m : Scan (Text × Text))
    → length r ≤ length s
    → All P out
    → Ensures (Takes P r) m
    → Ensures (Takes P s) (prefixed out m)
prefixed-Takes P s r out (ok p) le h t = record {
  piece = All-append P out p.0 h t.piece;
  rest = t.rest;
  shorter = omega (arith, t.shorter);
}
prefixed-Takes P s r out (err e) le h t = tt
prefixed-Takes P s r out Scan.out_of_fuel le h t = t

pub copy_quoted-Takes :
    (P : ℕ → Type 0) (start : ℕ) (s : Text)
    → Escapes P
    → All P s
    → Ensures (Takes P s) (copy_quoted start s)
unfolding copy_quoted
copy_quoted-Takes P start [] e h = tt
copy_quoted-Takes P start (c ∷ []) e h = elim (Bool-cases (c == b'"')) [
  | inl q ↦ rw q (record { piece = tt; rest = tt; shorter = omega arith })
  | inr q ↦ rw q tt
]
copy_quoted-Takes P start (c ∷ d ∷ s) e (a, (b, h)) = elim (Bool-cases (c == b'"')) [
  | inl q ↦ rw q (record { piece = tt; rest = (b, h); shorter = omega arith })
  | inr q ↦ rw q (elim (Bool-cases (c == b'\\')) [
    | inl k ↦ rw k (
        prefixed-Takes P (c ∷ d ∷ s) s (unescaped d) _ (omega arith) (unescaped-All P d e b)
          (copy_quoted-Takes P start s e h))
    | inr k ↦ rw k (
        prefixed-Takes P (c ∷ d ∷ s) (d ∷ s) (c ∷ []) _ (omega arith) (a, tt)
          (copy_quoted-Takes P start (d ∷ s) e (b, h)))
  ])
]

pub IsAdmitted-Escapes : Escapes IsAdmitted
IsAdmitted-Escapes = omega arith

valid_char-IsAdmitted : (c : ℕ) → is_valid_char c ≡ true → IsAdmitted c
valid_char-IsAdmitted c h = ground arith

pub valid-IsAdmitted : (s : Text) → all is_valid_char s ≡ true → All IsAdmitted s
valid-IsAdmitted [] h = tt
valid-IsAdmitted (c ∷ s) h = elim (Bool-cases (is_valid_char c)) [
  | inl e ↦ (valid_char-IsAdmitted c e, valid-IsAdmitted s (rw e at h))
  | inr e ↦ absurd (false≢true (rw e at h))
]
