-- ===== src/Serialize/Chars.antt =====
-- serialize.rs against scanner/mod.rs, character by character: what the serializer writes for a
-- text, a name or a value is what the scanner's loops take.
use mathlib.Core.Bool.{false≢true}
use dustnet.Base.{
  ℕ, ◌+◌, ◌≤◌, Bool, true, false, ◌||◌, some, [], ◌∷◌, ◌++◌, ◌≡◌, ◌≢◌, ◌⊎◌, inl, inr, refl, sym,
  ◌∙◌, ap, arith, ◌==◌, all, Bool-cases,
}
use dustnet.Base.Text.{Text, len_utf8, len, to_ascii_lowercase}
use dustnet.Scanner.Token.{max_text_token_size}
use dustnet.Scanner.Lexer.{is_name_char, text_size, copy_text, copy_name, pushed}
use dustnet.Scanner.Tags.{is_empty}
use dustnet.Scanner.Ensures.{StartsTag}
use dustnet.Serialize.{is_valid_char, push_text}

-- What may stand behind a text: the end, or a tag.
abbrev pub EndsText : Text → Type 0
EndsText s = (s ≡ []) ⊎ StartsTag s

abbrev is_bracket : ℕ → Bool
is_bracket c = c == b'[' || c == b']'

copy_text-plain :
    (c : ℕ) (s : Text) → is_bracket c ≡ false → copy_text (c ∷ s) ≡ pushed c (copy_text s)
unfolding copy_text
copy_text-plain c [] h = ground arith
copy_text-plain c (d ∷ s) h = ground arith

copy_text-doubled :
    (c : ℕ) (s : Text) → is_bracket c ≡ true → copy_text (c ∷ c ∷ s) ≡ pushed c (copy_text s)
unfolding copy_text
copy_text-doubled c s h = ground arith

copy_text-ends : (s : Text) → EndsText s → copy_text s ≡ ([], s)
unfolding copy_text
copy_text-ends [] h = refl
copy_text-ends (c ∷ []) h = ground arith
copy_text-ends (c ∷ d ∷ s) h = ground arith

push_text-plain : (c : ℕ) (s : Text) → is_bracket c ≡ false → push_text (c ∷ s) ≡ c ∷ push_text s
unfolding push_text
push_text-plain c s h = ground arith

push_text-doubled :
    (c : ℕ) (s : Text) → is_bracket c ≡ true → push_text (c ∷ s) ≡ c ∷ c ∷ push_text s
unfolding push_text
push_text-doubled c s h = ground arith

-- The scanner copies back a text that the serializer wrote.
pub copy_text-push_text :
    (t tail : Text) → EndsText tail → copy_text (push_text t ++ tail) ≡ (t, tail)
copy_text-push_text [] tail h = unfold push_text in copy_text-ends tail h
copy_text-push_text (c ∷ t) tail h = elim (Bool-cases (is_bracket c)) [
  | inl b ↦
      rw (push_text-doubled c t b)
        (copy_text-doubled c (push_text t ++ tail) b ∙ ap (pushed c) (copy_text-push_text t tail h))
  | inr b ↦
      rw (push_text-plain c t b)
        (copy_text-plain c (push_text t ++ tail) b ∙ ap (pushed c) (copy_text-push_text t tail h))
]

text_size-plain :
    (c : ℕ) (s : Text) (n : ℕ)
    → is_bracket c ≡ false
    → n + len_utf8 c ≤ max_text_token_size
    → text_size (c ∷ s) n ≡ text_size s (n + len_utf8 c)
unfolding text_size
text_size-plain c [] n h k = ground arith
text_size-plain c (d ∷ s) n h k = ground arith

text_size-doubled :
    (c : ℕ) (s : Text) (n : ℕ)
    → is_bracket c ≡ true
    → n + len_utf8 c ≤ max_text_token_size
    → text_size (c ∷ c ∷ s) n ≡ text_size s (n + len_utf8 c)
unfolding text_size
text_size-doubled c s n h k = ground arith

text_size-ends : (s : Text) (n : ℕ) → EndsText s → text_size s n ≡ some n
unfolding text_size
text_size-ends [] n h = refl
text_size-ends (c ∷ []) n h = ground arith
text_size-ends (c ∷ d ∷ s) n h = ground arith

pub text_size-push_text :
    (t tail : Text) (n : ℕ)
    → EndsText tail
    → n + len t ≤ max_text_token_size
    → text_size (push_text t ++ tail) n ≡ some (n + len t)
text_size-push_text [] tail n h k =
    unfold push_text in text_size-ends tail n h ∙ ap some (omega arith)
text_size-push_text (c ∷ t) tail n h k = elim (Bool-cases (is_bracket c)) [
  | inl b ↦ rw (push_text-doubled c t b) (
      text_size-doubled c (push_text t ++ tail) n b (omega arith)
      ∙ text_size-push_text t tail (n + len_utf8 c) h (omega arith)
      ∙ ap some (omega arith))
  | inr b ↦ rw (push_text-plain c t b) (
      text_size-plain c (push_text t ++ tail) n b (omega arith)
      ∙ text_size-push_text t tail (n + len_utf8 c) h (omega arith)
      ∙ ap some (omega arith))
]

-- What may stand behind a name.
abbrev pub EndsName : Text → Type 0
EndsName [] = Unit
EndsName (c ∷ s) = is_name_char c ≡ false

valid_char-name :
    (c : ℕ) → is_valid_char c ≡ true → (is_name_char c ≡ true) × (to_ascii_lowercase c ≡ c)
valid_char-name c h = ground arith

copy_name-ends : (s : Text) → EndsName s → copy_name s ≡ ([], s)
unfolding copy_name
copy_name-ends [] h = refl
copy_name-ends (c ∷ s) h = rw h

pub all-cons :
    (c : ℕ) (s : Text)
    → all is_valid_char (c ∷ s) ≡ true
    → (is_valid_char c ≡ true) × (all is_valid_char s ≡ true)
all-cons c s h = elim (Bool-cases (is_valid_char c)) [
  | inl e ↦ (e, rw e at h)
  | inr e ↦ absurd (false≢true (rw e at h))
]

pub copy_name-valid :
    (name tail : Text)
    → all is_valid_char name ≡ true
    → EndsName tail
    → copy_name (name ++ tail) ≡ (name, tail)
unfolding copy_name
copy_name-valid [] tail h k = copy_name-ends tail k
copy_name-valid (c ∷ name) tail h k =
    let (here, later) = all-cons c name h in
    let (is_name, low) = valid_char-name c here in
    rw (is_name, low) (rw (copy_name-valid name tail later k))

-- A text that is not empty does not begin like a tag.
pub push_text-starts : (t tail : Text) → t ≢ [] → ¬ StartsTag (push_text t ++ tail)
push_text-starts [] tail ne st = absurd (ne refl)
push_text-starts (c ∷ t) tail ne st = elim (Bool-cases (is_bracket c)) [
  | inl b ↦ doubled (rw (push_text-doubled c t b) at st)
  | inr b ↦ plain b (rw (push_text-plain c t b) at st)
]
  where
    doubled : StartsTag (c ∷ c ∷ (push_text t ++ tail)) → ⊥
    doubled k = false≢true (sym k.1 ∙ k.0)

    plain : is_bracket c ≡ false → StartsTag (c ∷ (push_text t ++ tail)) → ⊥
    plain b k = ground (arith, k.0)

pub push_text-nonempty : (t tail : Text) → t ≢ [] → is_empty (push_text t ++ tail) ≡ false
push_text-nonempty [] tail ne = absurd (ne refl)
push_text-nonempty (c ∷ t) tail ne = elim (Bool-cases (is_bracket c)) [
  | inl b ↦ rw (push_text-doubled c t b)
  | inr b ↦ rw (push_text-plain c t b)
]
