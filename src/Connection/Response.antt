-- ===== src/Connection/Response.antt =====
-- The responses that a connection writes to its socket (src/wh/whhttpconnection.cpp).
use webhost.Base.{ℕ, ◌&&◌, [], ◌∷◌, ◌++◌, ltb, if◌then◌else◌, length, pos}
use webhost.Qt.{QString, QByteArray, QStringList, lit, is_empty, Library}
use webhost.Connection.{Connection, write}
use webhost.Connection.Status.{status_text}

abbrev pub crlf : QByteArray
crlf = 13 ∷ 10 ∷ []

module _ (qt : Library) where
  open qt use {to_utf8, number}

  -- `datetimeStamp` of the current time; Qt formats the time shifted to GMT.
  datetime_stamp : QString
  datetime_stamp = qt.date_text ++ lit " GMT"

  unfoldable pub send_header : Connection → QString → QString → Connection
  send_header c name value =
      if is_empty name && is_empty value
      then write c crlf
      else write c (to_utf8 (name ++ (lit ": " ++ (value ++ crlf))))

  unfoldable pub send_response_header : Connection → ℕ → QString → Connection
  unfolding datetime_stamp
  send_response_header c stat_code mimetype =
      let statline =
        lit "HTTP/1.1 "
        ++ (number (pos stat_code) ++ (lit " " ++ (status_text stat_code ++ crlf))) in
      let c1 = write c (to_utf8 statline) in
      let c2 = send_header c1 (lit "Date") datetime_stamp in
      let c3 = send_header c2 (lit "Server") (lit "Webhost/" ++ qt.version) in
      let c4 = send_header c3 (lit "Connection") (lit "close") in
      if is_empty mimetype then c4 else send_header c4 (lit "Content-Type") mimetype

  -- The loop over the extra headers, names and values in step.
  unfoldable pub send_headers : Connection → QStringList → QStringList → Connection
  send_headers c (n ∷ ns) (v ∷ vs) = send_headers (send_header c n v) ns vs
  send_headers c _ _ = c

  unfoldable pub send_response :
      Connection → ℕ → QStringList → QStringList → QByteArray → QString → Connection
  unfolding send_headers
  send_response c stat_code names values body mimetype =
      let c1 = send_response_header c stat_code mimetype in
      let c2 =
        if ltb 0 (length body)
        then send_header c1 (lit "Content-Length") (number (pos (length body)))
        else c1 in
      let c3 = send_headers c2 names values in write (send_header c3 [] []) body

  -- The overload with no extra headers.
  abbrev pub send_body : Connection → ℕ → QByteArray → QString → Connection
  send_body c stat_code body mimetype = send_response c stat_code [] [] body mimetype

  error_text : ℕ → QString → QString
  error_text stat_code msg =
      if is_empty msg then number (pos stat_code) ++ (lit " " ++ status_text stat_code) else msg

  unfoldable pub send_error : Connection → ℕ → QString → QStringList → QStringList → Connection
  unfolding error_text
  send_error c stat_code msg names values =
      send_response c stat_code names values (to_utf8 (error_text stat_code msg)) []

  -- The overload with a message and no extra headers.
  abbrev pub send_error_text : Connection → ℕ → QString → Connection
  send_error_text c stat_code msg = send_error c stat_code msg [] []
