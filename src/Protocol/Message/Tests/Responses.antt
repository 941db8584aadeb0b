-- ===== src/Protocol/Message/Tests/Responses.antt =====
-- crates/dustnet-core/src/protocol/message.rs: the laws of a server's messages at concrete ones.
use dustnet.Base.{◌*◌, ◌≤◌, Bool, true, some, [], ◌≡◌, ◌↔◌, ◌⊎◌, refl, ◌∙◌, arith, inl}
use dustnet.Base.Decimal.{decimal, digits_onto, parse_digits, parse_unsigned}
use dustnet.Base.Text.{Text, codes, len, contains, split, split_once, strip_prefix, text_eq}
use dustnet.Base.Utf8.{as_bytes}
use dustnet.Protocol.Error.{ok, ◌>>=◌}
use dustnet.Protocol.Message.Failure
use dustnet.Protocol.Message.Failure.{ErrorMessage, ErrorHeap, error_body, validate_error_body}
use dustnet.Protocol.Message.Failure.Accepted.{IsErrorBody}
use dustnet.Protocol.Message.Failure.Checked as FailureChecked
use dustnet.Protocol.Message.Failure.Checked.{validate_error_body-parse}
use dustnet.Protocol.Message.Failure.RoundTrip.{parse-serialize_error}
use dustnet.Protocol.Message.Lines.{lines}
use dustnet.Protocol.Message.Page.{PageHeap, from_bits, decode_body, validate_page_body}
use dustnet.Protocol.Message.Page.Checked as PageChecked
use dustnet.Protocol.Message.Page.Checked.{validate_page_body-decode_body}
use dustnet.Protocol.Message.Redirect
use dustnet.Protocol.Message.Redirect.{
  RedirectMessage, RedirectHeap, redirect_line, parse_redirect_code, validate_redirect_body,
  validate_redirect_body-target,
}
use dustnet.Protocol.Message.Update
use dustnet.Protocol.Message.Update.{
  UpdateMessage, UpdateHeap, to_bits, with_flags, update_body, validate_update_parts,
  try_serialize_parts, parts_body_len,
}
use dustnet.Protocol.Message.Update.Parts as UpdateParts
use dustnet.Protocol.Message.Update.Parts.{validate_update_parts-assembled}
use dustnet.Protocol.Message.Update.RoundTrip.{parse-serialize_update}
use dustnet.Protocol.Origin.Key.{OneByte-IsChar}
use dustnet.Protocol.Path.{
  pop, before_last, leave_segment, enter_segment, normalize_step, normalize_from, normalized_path,
  try_normalize_path,
}
use dustnet.Protocol.Uri
use dustnet.Protocol.Uri.{UriHeap, AtpUri, authority, host_and_port, parse_port, parse_authority}
use dustnet.Protocol.Uri.Hosts.{Ipv6Laws, contains-lowercase}
use dustnet.Protocol.Uri.Parsed.{IsUri}
use dustnet.Protocol.Message.Tests.{granted}

abbrev error_heap : ErrorHeap
error_heap = record { message = granted; body = granted; diagnostics = granted }

error-Generous : FailureChecked.Generous error_heap
error-Generous = record { message = λ n. refl; body = λ n. refl }

abbrev missing : ErrorMessage
missing = record { code = 404; message = some (codes "no page") }

missing-short : len (error_body missing) ≤ 16 * 1024
unfolding error_body decimal digits_onto
missing-short = omega arith

parse-serialize_error_example :
    (Failure.serialize error_heap missing >>= Failure.parse error_heap) ≡ ok missing
parse-serialize_error_example =
    parse-serialize_error error_heap missing error-Generous
      (record {
        three_digits = (omega arith, omega arith);
        message = record { full = refl; visible = refl };
      })
      missing-short

validate_error_body-parse_example :
    (validate_error_body error_heap (codes "ERROR 404\nMessage: gone\n")
      ≡ (Failure.parse error_heap (codes "ERROR 404\nMessage: gone\n") >>= λ m. ok tt))
    × ((validate_error_body error_heap (codes "ERROR 404\nMessage: gone\n") ≡ ok tt)
        ↔ IsErrorBody (codes "ERROR 404\nMessage: gone\n"))
validate_error_body-parse_example =
    validate_error_body-parse error_heap (codes "ERROR 404\nMessage: gone\n") error-Generous

abbrev update_heap : UpdateHeap
update_heap = record { region = granted; content = granted; body = granted; diagnostics = granted }

update-Generous : UpdateParts.Generous update_heap
update-Generous = record { region = λ n. refl; content = λ n. refl; body = λ n. refl }

abbrev news : UpdateMessage
news = record { region = codes "feed"; content = codes "a\n\nb"; flags = record { delta = true } }

news-short : len (update_body (codes "feed") (codes "a\n\nb")) ≤ 1024 * 1024
unfolding update_body
news-short = omega arith

parse-serialize_update_example :
    (Update.serialize update_heap news >>= λ body.
    Update.parse update_heap body >>= λ u. ok (with_flags (to_bits news.flags) u))
    ≡ ok news
parse-serialize_update_example =
    parse-serialize_update update_heap news update-Generous (record { full = refl; visible = refl })
      news-short

validate_update_parts-assembled_example :
    (validate_update_parts update_heap (codes "feed") (len (codes "a\n\nb"))
      ≡ (try_serialize_parts update_heap (codes "feed") (codes "a\n\nb") >>= λ body. ok tt))
    × ((body : Text)
        → try_serialize_parts update_heap (codes "feed") (codes "a\n\nb") ≡ ok body
        → parts_body_len (codes "feed") (len (codes "a\n\nb")) ≡ ok (len body))
validate_update_parts-assembled_example =
    validate_update_parts-assembled update_heap (codes "feed") (codes "a\n\nb") update-Generous

abbrev with_colon : Text → Bool
with_colon t = contains b':' t

with_colon-Ipv6Laws : Ipv6Laws with_colon
with_colon-Ipv6Laws = record {
  has_colon = λ t e. e;
  lowered = λ t e. contains-lowercase b':' t (inl (omega arith)) ∙ e;
}

abbrev uri_heap : UriHeap
uri_heap = record { host = granted; path = granted; query = granted; diagnostics = granted }

abbrev redirect_heap : RedirectHeap
redirect_heap = record { target = granted; body = granted; diagnostics = granted }

redirect-Generous : Redirect.Generous redirect_heap
redirect-Generous = record { target = λ n. refl }

abbrev moved_page : Text
moved_page = codes "REDIRECT 301 atp://home/b\n"

moved_page-valid : validate_redirect_body with_colon redirect_heap uri_heap moved_page ≡ ok tt
unfolding validate_redirect_body redirect_line parse_redirect_code lines Uri.parse parse_authority
    host_and_port authority split_once strip_prefix before_last parse_port parse_unsigned
    parse_digits try_normalize_path normalized_path normalize_from normalize_step leave_segment
    enter_segment pop split text_eq
moved_page-valid = refl

validate_redirect_body-target_example :
    (m : RedirectMessage) × (u : AtpUri) × (Redirect.parse redirect_heap moved_page ≡ ok m)
    × ((m.code ≡ 301) ⊎ (m.code ≡ 302))
    × (Uri.parse with_colon uri_heap m.target ≡ ok u)
    × IsUri with_colon u
validate_redirect_body-target_example =
    validate_redirect_body-target with_colon redirect_heap uri_heap moved_page with_colon-Ipv6Laws
      redirect-Generous moved_page-valid

abbrev page_heap : PageHeap
page_heap = record {
  content = granted;
  path = granted;
  directives = granted;
  token = λ i n. true;
  scope = λ i n. true;
  diagnostics = granted;
  directive_size = 72;
  utf8_error = λ bytes. [];
}

page-Generous : PageChecked.Generous page_heap
page-Generous = record {
  content = λ n. refl;
  path = λ n. refl;
  directives = λ n. refl;
  token = λ i n. refl;
  scope = λ i n. refl;
}

abbrev welcome_page : Text
welcome_page = codes "Path: /a\nSet-Session: t /a\n\nhi"

validate_page_body-decode_body_example :
    validate_page_body page_heap welcome_page (from_bits 12)
    ≡ (decode_body page_heap (as_bytes welcome_page) 12 >>= λ m. ok tt)
validate_page_body-decode_body_example =
    validate_page_body-decode_body page_heap welcome_page 12 page-Generous
      (OneByte-IsChar welcome_page (omega arith))
