-- ===== src/Serialize/Tests.antt =====
-- crates/dustnet-core/src/serialize.rs: the laws of the serializer at concrete tokens.
use dustnet.Base.{true, false, List, [], ◌∷◌, ◌++◌, map, ◌≡◌, refl, inr, arith}
use dustnet.Base.Text.{Text, codes}
use dustnet.Base.Utf8.{as_bytes}
use dustnet.Scanner.Lexer.{copy_text, copy_quoted}
use dustnet.Scanner.Token.{ident, flag, Token, open_tag, close_tag, text, eof, Allocator, ok}
use dustnet.Serialize
use dustnet.Serialize.{push_text, push_attr_value, to_aml}
use dustnet.Serialize.Chars.{copy_text-push_text}
use dustnet.Serialize.Quoted.{copy_quoted-push}
use dustnet.Serialize.RoundTrip.{read_aml, scan-to_aml}
use dustnet.Serialize.Written.{normalize}
use dustnet.Serialize.Tokens.{read_back}

abbrev ample : Allocator
ample = record { granted = λ _ _. true; char_size = 4; token_size = 64; attribute_size = 56 }

abbrev tokens : List Token
tokens =
    open_tag (codes "b")
      (record { name = codes "k"; value = ident (codes "x\"") }
        ∷ record { name = codes "f"; value = flag }
        ∷ [])
      false
    ∷ text (codes "a]")
    ∷ text (codes "[b")
    ∷ close_tag (codes "b")
    ∷ []

abbrev aml : Text
aml = codes "[b k=\"x\\\"\" f]a]][[b[/b]"

written : to_aml tokens ≡ Serialize.ok aml
unfolding to_aml Serialize.push_token Serialize.is_valid_name Serialize.push_attributes
    Serialize.push_attribute push_attr_value push_text
written = refl

scan-to_aml_example :
    read_aml ample (as_bytes aml) ≡ ok (map read_back (normalize tokens) ++ eof ∷ [])
scan-to_aml_example =
    scan-to_aml ample tokens {aml = aml} (λ _ _. refl) written (omega arith) (omega arith)
      (omega arith) (omega arith)

copy_text-push_text_example :
    copy_text (push_text (codes "a[b]") ++ codes "[/p]") ≡ (codes "a[b]", codes "[/p]")
copy_text-push_text_example = copy_text-push_text (codes "a[b]") (codes "[/p]") (inr (refl, refl))

copy_quoted-push_example :
    copy_quoted 0 (push_attr_value (codes "a\"b\\") ++ b'"' ∷ codes " x]")
    ≡ ok (codes "a\"b\\", codes " x]")
copy_quoted-push_example = copy_quoted-push 0 (codes "a\"b\\") (codes " x]")
