-- ===== src/Scanner/Tests.antt =====
-- crates/dustnet-core/src/scanner: the laws of the filter and of the scanner at concrete inputs.
use dustnet.Base.{◌+◌, leb, some, [], ◌∷◌, ◌++◌, All, ◌≡◌, refl, inl, inr, arith}
use dustnet.Base.Text.{Text, codes, len}
use dustnet.Base.Utf8.{as_bytes}
use dustnet.Scanner.Ensures.{Ensures, text_size-copy_text}
use dustnet.Scanner.Escape.{sanitize, sanitize_into, push}
use dustnet.Scanner.Escape.Loop.{write_all, sanitize_into-write_all}
use dustnet.Scanner.Escape.Output.{IsAdmitted, sanitize-IsAdmitted, sanitize-eq_self_iff}
use dustnet.Scanner.Escape.Sequences.{IsPayload, sanitize-removes_csi, sanitize-removes_string}
use dustnet.Scanner.Lexer.{text_size, copy_text}
use dustnet.Scanner.Tags.{new, scan_all}
use dustnet.Scanner.Token.{Allocator, ◌>>=◌}
use dustnet.Scanner.Total.{IsScan, scan_all-IsScan}

-- an allocator that refuses what is larger than 4096 bytes
abbrev strict : Allocator
strict = record { granted = λ _ n. leb n 4096; char_size = 4; token_size = 64; attribute_size = 56 }

abbrev coloured : Text
coloured = codes "a" ++ 0x1B ∷ codes "[31mred" ++ 0x202E ∷ 0x7F ∷ []

sanitize-IsAdmitted_example : All IsAdmitted (sanitize coloured)
sanitize-IsAdmitted_example = sanitize-IsAdmitted coloured

sanitize-eq_self_iff_example :
    (All IsAdmitted coloured → sanitize coloured ≡ coloured)
    × (sanitize coloured ≡ coloured → All IsAdmitted coloured)
sanitize-eq_self_iff_example = sanitize-eq_self_iff coloured

sanitize-removes_csi_example :
    sanitize (codes "a" ++ ((0x1B ∷ b'[' ∷ []) ++ (codes "31" ++ b'm' ∷ codes "red")))
    ≡ codes "a" ++ sanitize (codes "red")
sanitize-removes_csi_example =
    sanitize-removes_csi (codes "a") (0x1B ∷ b'[' ∷ []) (codes "31") b'm' (codes "red")
      (omega arith) (inl refl) (inl (omega arith), (inl (omega arith), tt)) (omega arith)
      (omega arith)

-- a title with a bare ESC in it
abbrev titled : Text
titled = b'0' ∷ 0x1B ∷ b'x' ∷ []

titled-IsPayload : IsPayload titled
titled-IsPayload = (
  omega arith,
  omega arith,
  (λ q. absurd (omega arith)),
  (
    omega arith,
    omega arith,
    (λ q. omega arith),
    (omega arith, omega arith, (λ q. absurd (omega arith)), tt),
  ),
)

sanitize-removes_string_example :
    (sanitize (codes "a" ++ ((0x9D ∷ []) ++ (titled ++ ((0x07 ∷ []) ++ codes "b"))))
      ≡ codes "a" ++ sanitize (codes "b"))
    × (sanitize (codes "a" ++ ((0x9D ∷ []) ++ titled)) ≡ codes "a")
sanitize-removes_string_example =
    sanitize-removes_string (codes "a") (0x9D ∷ []) titled (0x07 ∷ []) (codes "b") (omega arith)
      (inr (inl refl)) titled-IsPayload (inl refl)

sanitize_into-write_all_example :
    sanitize_into push coloured (codes ">") ≡ write_all push (sanitize coloured) (codes ">")
sanitize_into-write_all_example = sanitize_into-write_all push coloured (codes ">")

scan_all-IsScan_example :
    Ensures (λ q. IsScan q.0) (new strict (as_bytes (codes "[b]x[/b]")) >>= scan_all strict)
scan_all-IsScan_example = scan_all-IsScan strict (as_bytes (codes "[b]x[/b]"))

counted : text_size (codes "a[[b]]c") 0 ≡ some 5
unfolding text_size
counted = refl

text_size-copy_text_example : 5 ≡ 0 + len (copy_text (codes "a[[b]]c")).0
text_size-copy_text_example = text_size-copy_text (codes "a[[b]]c") 0 counted
