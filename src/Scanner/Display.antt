-- ===== src/Scanner/Display.antt =====
-- crates/dustnet-core/src/scanner/mod.rs: the `Display` of tokens and errors, which escapes nothing.
use dustnet.Base.{Bool, true, false, List, [], ◌∷◌, ◌++◌}
use dustnet.Base.Decimal.{decimal}
use dustnet.Base.Text.{Text, codes}
use dustnet.Scanner.Token.{
  AttributeValue, string, ident, flag, Attribute, Token, open_tag, close_tag, text, eof, ScanError,
  input_too_large, invalid_utf8, too_many_tokens, unterminated_tag, unterminated_string,
  invalid_tag_name, attribute_value_too_long, text_too_long, resource_exhausted,
}

abbrev display_value : Text → AttributeValue → Text
display_value name (string s) = name ++ (codes "=\"" ++ (s ++ codes "\""))
display_value name (ident s) = name ++ (codes "=" ++ s)
display_value name flag = name

abbrev pub display_attribute : Attribute → Text
display_attribute a = display_value a.name a.value

abbrev display_attributes : List Attribute → Text
display_attributes [] = []
display_attributes (a ∷ as_) = codes " " ++ (display_attribute a ++ display_attributes as_)

abbrev display_end : Bool → Text
display_end true = codes " /]"
display_end false = codes "]"

abbrev pub display_token : Token → Text
display_token (open_tag name attributes self_closing) =
    codes "[" ++ (name ++ (display_attributes attributes ++ display_end self_closing))
display_token (close_tag name) = codes "[/" ++ (name ++ codes "]")
display_token (text s) = s
display_token eof = codes "<EOF>"

abbrev pub display_scan_error : ScanError → Text
display_scan_error (input_too_large size max) =
    codes "input too large: "
    ++ (decimal size ++ (codes " bytes (max " ++ (decimal max ++ codes ")")))
display_scan_error invalid_utf8 = codes "input is not valid UTF-8"
display_scan_error (too_many_tokens max) =
    codes "too many tokens (max " ++ (decimal max ++ codes ")")
display_scan_error (unterminated_tag offset) =
    codes "unterminated tag at byte offset " ++ decimal offset
display_scan_error (unterminated_string offset) =
    codes "unterminated string at byte offset " ++ decimal offset
display_scan_error (invalid_tag_name offset) =
    codes "invalid tag name at byte offset " ++ decimal offset
display_scan_error (attribute_value_too_long max) =
    codes "attribute value exceeds maximum length of " ++ (decimal max ++ codes " characters")
display_scan_error (text_too_long max) =
    codes "text content exceeds maximum size of " ++ (decimal max ++ codes " bytes")
display_scan_error (resource_exhausted requested) =
    codes "scanner allocation failed for " ++ (decimal requested ++ codes " bytes")
