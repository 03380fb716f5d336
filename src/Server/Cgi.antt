-- ===== src/Server/Cgi.antt =====
-- The CGI process of a connection: `startCgiScript` and the slots of src/wh/whhttpconnection.cpp.
use webhost.Base.{
  ◌%◌, ◌^◌, true, false, List, [], ◌∷◌, ◌++◌, if◌then◌else◌, ℤ, pos, zero, is_nonneg,
}
use webhost.Qt.{QString, QByteArray, QStringList, lit, is_empty, Library}
use webhost.Connection.{
  Connection, Method, post, call, write, process_start, process_write, socket_close, cgi_finished,
}
use webhost.Connection.Response.{crlf, send_response_header, send_error_text}

abbrev pub Env : Type 0
Env = List (QString × QString)

pub data ExitStatus : Type 0 where
  normal_exit crash_exit : ExitStatus

pub data ProcessError : Type 0 where
  failed_to_start crashed timed_out write_error read_error unknown_error : ProcessError

abbrev if_given : QString → QString → Env
if_given name value = if is_empty value then [] else (name, value) ∷ []

abbrev request_method : Method → QString
request_method post = lit "POST"
request_method _ = lit "GET"

module _ (qt : Library) where
  open qt use {number, trimmed, to_utf8, from_ascii}

  unfoldable pub cgi_environment : Connection → QString → Env
  cgi_environment c filename =
      (if is_nonneg c.content_length
        then (lit "CONTENT_LENGTH", number c.content_length)
          ∷ (lit "CONTENT_TYPE", c.content_type)
          ∷ []
        else [])
      ++ ((lit "GATEWAY_INTERFACE", lit "1.1")
          ∷ (lit "HTTP_HOST", qt.local_address c.id)
          ∷ (if_given (lit "HTTP_REFERER") c.referrer
              ++ (if_given (lit "HTTP_USER_AGENT") c.user_agent
                  ++ ((lit "REMOTE_ADDR", qt.peer_address c.id)
                      ∷ (lit "REMOTE_HOST", qt.peer_address c.id)
                      ∷ (lit "REMOTE_PORT", number (pos (qt.peer_port c.id % 2 ^ 16)))
                      ∷ (lit "REQUEST_METHOD", request_method c.method)
                      ∷ (lit "REQUEST_URI", c.uri)
                      ∷ (lit "SCRIPT_FILENAME", filename)
                      ∷ (lit "SCRIPT_NAME", filename)
                      ∷ (lit "SERVER_ADMIN", lit "noone@nowhere.com")
                      ∷ (lit "SERVER_NAME", qt.local_address c.id)
                      ∷ (lit "SERVER_PORT", number (pos (qt.local_port c.id % 2 ^ 16)))
                      ∷ (lit "SERVER_SOFTWARE", lit "Webhost-" ++ qt.version)
                      ∷ []))))

  unfoldable pub start_cgi_script : Connection → QString → Connection
  start_cgi_script c filename =
      call (record c { cgi_active = true }) (process_start filename (cgi_environment c filename))

  -- `cgiStartedData`
  started_with : Method → Connection → Connection
  started_with post c = call (call c (process_write c.body)) (process_write crlf)
  started_with _ c = c

  pub cgi_started : Connection → Connection
  unfolding started_with
  cgi_started c = started_with c.method c

  write_lines : Connection → QStringList → Connection
  write_lines c [] = c
  write_lines c (l ∷ ls) = write_lines (write c (to_utf8 (l ++ crlf))) ls

  -- The reads of at most 1024 bytes while there are any.
  write_blocks : Connection → List QByteArray → Connection
  write_blocks c [] = c
  write_blocks c (b ∷ bs) = write_blocks (write c b) bs

  -- `cgiReadyReadData`: the line that `readLine` gives while headers are read, and the blocks that
  -- the reads give behind it.
  unfoldable pub cgi_ready_read : Connection → QByteArray → List QByteArray → Connection
  unfolding write_lines write_blocks
  cgi_ready_read c line blocks =
      if c.cgi_headers_active
      then if is_empty (trimmed line)
        then write_blocks
            (record (write (write_lines (send_response_header qt c 200 []) c.cgi_headers) crlf) {
              cgi_headers_active = false;
            })
            blocks
        else record c { cgi_headers = c.cgi_headers ++ from_ascii (trimmed line) ∷ [] }
      else write_blocks c blocks

  finish_cgi : Connection → Connection
  finish_cgi c = call (call c socket_close) cgi_finished

  exit_answer : Connection → ExitStatus → ℤ → QByteArray → List QByteArray → Connection
  exit_answer c crash_exit code line blocks = send_error_text qt c 500 (lit "CGI process crashed")
  exit_answer c normal_exit (pos zero) line blocks = cgi_ready_read c line blocks
  exit_answer c normal_exit code line blocks =
      send_error_text qt c 500
        (lit "CGI process returned non-zero exit code [" ++ (number code ++ lit "]"))

  -- `cgiFinishedData`
  unfoldable pub cgi_finished_data :
      Connection → ExitStatus → ℤ → QByteArray → List QByteArray → Connection
  unfolding exit_answer finish_cgi
  cgi_finished_data c status code line blocks = finish_cgi (exit_answer c status code line blocks)

  abbrev error_name : ProcessError → QString
  error_name failed_to_start = lit "failed to start"
  error_name crashed = lit "crashed"
  error_name timed_out = lit "Timed out"
  error_name write_error = lit "write error"
  error_name read_error = lit "read error"
  error_name unknown_error = lit "unknown error"

  -- `cgiErrorData`
  unfoldable pub cgi_error_data : Connection → ProcessError → Connection
  unfolding finish_cgi
  cgi_error_data c err =
      finish_cgi
        (send_error_text qt c 500 (lit "500 CGI process error [" ++ (error_name err ++ lit "]")))
