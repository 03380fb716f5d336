-- ===== src/Connection/Status.antt =====
-- `statusText`: the reason phrase of a status code.
use webhost.Base.{ℕ, ◌&&◌, leb, ltb, ◌==◌, if◌then◌else◌, List, [], ◌∷◌}
use webhost.Qt.{QString, lit}

-- The phrase for a class of codes; each test assigns, so the last that holds counts.
status_class : ℕ → QString
status_class n =
    let unknown = lit "Unknown" in
    let r1 = if leb 100 n && ltb n 200 then lit "Continue" else unknown in
    let r2 = if leb 200 n && ltb n 300 then lit "OK" else r1 in
    let r3 = if leb 300 n && ltb n 400 then lit "Multiple Choices" else r2 in
    let r4 = if leb 400 n && ltb n 500 then lit "Bad Request" else r3 in
    if leb 500 n && ltb n 600 then lit "Internal Server Error" else r4

-- The switch over the codes of RFC 2616.
abbrev status_table : List (ℕ × QString)
status_table =
    (100, lit "Continue")
    ∷ (101, lit "Switching Protocols")
    ∷ (200, lit "OK")
    ∷ (201, lit "Created")
    ∷ (202, lit "Accepted")
    ∷ (203, lit "Non-Authoritative Information")
    ∷ (204, lit "No Content")
    ∷ (205, lit "Reset Content")
    ∷ (206, lit "Partial Content")
    ∷ (300, lit "Multiple Choices")
    ∷ (301, lit "Moved Permanently")
    ∷ (302, lit "Found")
    ∷ (303, lit "See Other")
    ∷ (304, lit "Not Modified")
    ∷ (305, lit "Use Proxy")
    ∷ (306, lit "(Unused)")
    ∷ (307, lit "Temporary Redirect")
    ∷ (400, lit "Bad Request")
    ∷ (401, lit "Unauthorized")
    ∷ (402, lit "Payment Required")
    ∷ (403, lit "Forbidden")
    ∷ (404, lit "Not Found")
    ∷ (405, lit "Method Not Allowed")
    ∷ (406, lit "Not Acceptable")
    ∷ (407, lit "Proxy Authentication Required")
    ∷ (408, lit "Request Timeout")
    ∷ (409, lit "Conflict")
    ∷ (410, lit "Gone")
    ∷ (411, lit "Length Required")
    ∷ (412, lit "Precondition Failed")
    ∷ (413, lit "Request Entity Too Large")
    ∷ (414, lit "Request-URI Too Long")
    ∷ (415, lit "Unsupported Media Type")
    ∷ (416, lit "Requested Range Not Satisfiable")
    ∷ (417, lit "Expectation Failed")
    ∷ (500, lit "Internal Server Error")
    ∷ (501, lit "Not Implemented")
    ∷ (502, lit "Bad Gateway")
    ∷ (503, lit "Service Unavailable")
    ∷ (504, lit "Gateway Timeout")
    ∷ (505, lit "HTTP Version Not Supported")
    ∷ []

status_lookup : ℕ → List (ℕ × QString) → QString → QString
status_lookup n [] default = default
status_lookup n ((k, t) ∷ rest) default = if n == k then t else status_lookup n rest default

unfoldable pub status_text : ℕ → QString
unfolding status_class status_lookup
status_text n = status_lookup n status_table (status_class n)
