-- ===== src/Protocol/Message/Redirect.antt =====
-- crates/dustnet-core/src/protocol/message.rs: the body of REDIRECT, parsed, checked and written.
use dustnet.Base.{
  ℕ, ◌+◌, Bool, true, not, [], ◌∷◌, ◌++◌, ◌==◌, if◌then◌else◌, length, ◌≡◌, ◌⊎◌, inl, inr, refl,
  sym, ap, ◌∙◌, arith,
}
use dustnet.Base.Decimal.{decimal}
use dustnet.Base.Text.{Text, codes, len, text_eq, split_once, strip_prefix}
use dustnet.Protocol.Error.{
  redirect, invalid_message, Result, ok, err, ◌>>=◌, ◌>>◌, reject, reserve, >>=-eq-ok,
}
use dustnet.Protocol.Message.Fields.{
  max_control_message_size, checked_add_size, enforce_message_limit, try_owned_string, invalid,
  validate_primary_value, first_line, decimal_size,
}
use dustnet.Protocol.Message.Lines.{lines}
use dustnet.Protocol.Uri
use dustnet.Protocol.Uri.{UriHeap, AtpUri}
use dustnet.Protocol.Uri.Hosts.{Ipv6Laws}
use dustnet.Protocol.Uri.Parsed.{IsUri, parse-IsUri}
use dustnet.Protocol.Version.{or_else}

-- `RedirectMessage`
pub record RedirectMessage : Type 0 where
  pub code : ℕ
  pub target : Text

-- What the allocator grants: the copy of the target, the written body, and the text of an error.
pub record RedirectHeap : Type 0 where
  pub target : ℕ → Bool
  pub body : ℕ → Bool
  pub diagnostics : ℕ → Bool

unfoldable pub parse_redirect_code : RedirectHeap → Text → Result ℕ
parse_redirect_code heap code =
    if text_eq code (codes "301")
    then ok 301
    else if text_eq code (codes "302")
    then ok 302
    else err (invalid heap.diagnostics (codes "invalid redirect code: " ∷ code ∷ []))

-- the code and the target on the first line
unfoldable pub redirect_line : RedirectHeap → Text → Result (ℕ × Text)
redirect_line heap body = do
  first ← first_line (codes "empty REDIRECT body") (lines body)
  rest ←
      or_else (invalid heap.diagnostics (codes "expected REDIRECT, got: " ∷ first.0 ∷ []))
        (strip_prefix (codes "REDIRECT ") first.0)
  parts ← or_else (invalid_message (codes "REDIRECT missing target")) (split_once b' ' rest)
  code ← parse_redirect_code heap parts.0
  validate_primary_value heap.diagnostics (codes "REDIRECT target") parts.1
  ok (code, parts.1)

abbrev pub single_line : Text → Result (Unit {0})
single_line body =
    reject (not (length (lines body) == 1))
      (invalid_message (codes "REDIRECT must not contain metadata"))

-- `RedirectMessage::parse`
unfoldable pub parse : RedirectHeap → Text → Result RedirectMessage
parse heap body = do
  enforce_message_limit redirect (len body) max_control_message_size
  head ← redirect_line heap body
  single_line body
  target ← try_owned_string heap.target head.1
  ok (record { code = head.0; target = target })

-- the text that `serialize` writes
unfoldable pub redirect_body : RedirectMessage → Text
redirect_body self = codes "REDIRECT " ++ (decimal self.code ++ b' ' ∷ (self.target ++ b'\n' ∷ []))

-- `RedirectMessage::serialize`
unfoldable pub serialize : RedirectHeap → RedirectMessage → Result Text
serialize heap self = do
  requested ←
      checked_add_size (len (codes "REDIRECT  \n") + decimal_size self.code) (len self.target)
  enforce_message_limit redirect requested max_control_message_size
  reserve (heap.body requested) requested
  ok (redirect_body self)

module _ (is_ipv6 : Text → Bool) where
  -- `validate_redirect_body`
  unfoldable pub validate_redirect_body : RedirectHeap → UriHeap → Text → Result (Unit {0})
  validate_redirect_body heap uris body = do
    enforce_message_limit redirect (len body) max_control_message_size
    head ← redirect_line heap body
    uri ← Uri.parse is_ipv6 uris head.1
    single_line body

-- The allocator grants the copy of the target.
pub record Generous (heap : RedirectHeap) : Type 0 where
  pub target : (n : ℕ) → heap.target n ≡ true

parse_redirect_code-known :
    (heap : RedirectHeap) (code : Text) {n : ℕ}
    → parse_redirect_code heap code ≡ ok n
    → (n ≡ 301) ⊎ (n ≡ 302)
unfolding parse_redirect_code
parse_redirect_code-known heap code {n} e = ground arith

redirect_line-known :
    (heap : RedirectHeap) (body : Text) {head : ℕ × Text}
    → redirect_line heap body ≡ ok head
    → (head.0 ≡ 301) ⊎ (head.0 ≡ 302)
unfolding redirect_line
redirect_line-known heap body {head} e =
    let (first, e0, f0) =
      >>=-eq-ok (first_line (codes "empty REDIRECT body") (lines body)) _ {b = head} e in
    let (rest, e1, f1) =
      >>=-eq-ok
        (or_else (invalid heap.diagnostics (codes "expected REDIRECT, got: " ∷ first.0 ∷ []))
          (strip_prefix (codes "REDIRECT ") first.0))
        _ {b = head} f0 in
    let (parts, e2, f2) =
      >>=-eq-ok (or_else (invalid_message (codes "REDIRECT missing target")) (split_once b' ' rest))
        _ {b = head} f1 in
    let (code, e3, f3) = >>=-eq-ok (parse_redirect_code heap parts.0) _ {b = head} f2 in
    let (u, e4, f4) =
      >>=-eq-ok (validate_primary_value heap.diagnostics (codes "REDIRECT target") parts.1) _
        {b = head} f3 in
    let same : code ≡ head.0 = ap (λ r. r.0) (ok_inj f4) in
    elim (parse_redirect_code-known heap parts.0 {n = code} e3) [
      | inl k ↦ inl (sym same ∙ k)
      | inr k ↦ inr (sym same ∙ k)
    ]
  where
    ok_inj : {s t : ℕ × Text} → Path (Result (ℕ × Text)) (ok s) (ok t) → s ≡ t
    ok_inj e = cc

-- A REDIRECT body that is let through is one that the parser, whose allocator grants the copy, reads: its
-- code is 301 or 302, and its target is an address that parses and is well formed.
pub validate_redirect_body-target :
    (is_ipv6 : Text → Bool) (heap : RedirectHeap) (uris : UriHeap) (body : Text)
    → Ipv6Laws is_ipv6
    → Generous heap
    → validate_redirect_body is_ipv6 heap uris body ≡ ok tt
    → (m : RedirectMessage) × (u : AtpUri) × (parse heap body ≡ ok m)
      × ((m.code ≡ 301) ⊎ (m.code ≡ 302))
      × (Uri.parse is_ipv6 uris m.target ≡ ok u)
      × IsUri is_ipv6 u
unfolding validate_redirect_body parse
validate_redirect_body-target is_ipv6 heap uris body laws g e =
    let (v, e0, f0) =
      >>=-eq-ok (enforce_message_limit redirect (len body) max_control_message_size) _ {b = tt} e in
    let (head, e1, f1) = >>=-eq-ok (redirect_line heap body) _ {b = tt} f0 in
    let (u, e2, f2) = >>=-eq-ok (Uri.parse is_ipv6 uris head.1) _ {b = tt} f1 in
    (
      record { code = head.0; target = head.1 },
      u,
      rw (e0, e1, f2, g.target (len head.1)) refl,
      redirect_line-known heap body {head = head} e1,
      e2,
      parse-IsUri is_ipv6 laws uris head.1 {u = u} e2,
    )
