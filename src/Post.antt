-- ===== src/Post.antt =====
-- What a CGI program reads of a request (src/wh/whcgipost.cpp): here `UrlDecode`, whose flags of the
-- digits that it converts are not looked at; the bodies of requests in Form and Multipart, the object
-- from the constructor to the destructor in Request, and the state of the machine in Host.
pub mod RoundTrip
pub mod Form
pub mod Multipart
pub mod Request
pub mod Host
use webhost.Base.{ℕ, ◌%◌, ◌^◌, List, [], ◌∷◌, ◌++◌, if◌then◌else◌, ◌==◌, to_unsigned}
use webhost.Qt.{QChar, QString, Library}

-- `istate`, 0 to 2
pub data UrlState : Type 0 where
  in_text first_digit second_digit : UrlState

module _ (qt : Library) where
  -- `QChar(code.toInt(&ok,16))`
  unfoldable pub code_unit : QString → QChar
  code_unit code = to_unsigned (qt.to_int_hex code).0 % 2 ^ 16

  unfoldable pub decode_loop : UrlState → QString → QString → QString → QString
  decode_loop state code ret [] = ret
  decode_loop in_text code ret (c ∷ s) =
      if c == b'+'
      then decode_loop in_text code (ret ++ b' ' ∷ []) s
      else if c == b'%'
      then decode_loop first_digit code ret s
      else decode_loop in_text code (ret ++ c ∷ []) s
  decode_loop first_digit code ret (c ∷ s) = decode_loop second_digit (c ∷ []) ret s
  decode_loop second_digit code ret (c ∷ s) =
      decode_loop in_text (code ++ c ∷ []) (ret ++ code_unit (code ++ c ∷ []) ∷ []) s

  unfoldable pub url_decode : QString → QString
  url_decode str = decode_loop in_text [] [] str
