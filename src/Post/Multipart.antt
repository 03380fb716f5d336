-- ===== src/Post/Multipart.antt =====
-- A request of several parts: `LoadMultipartEncoding` of src/wh/whcgipost.cpp, and the files that the
-- destructor deletes. A file that is open is its name and the bytes written to it.
pub mod Parts
pub mod Uploads
pub mod Opening
pub mod Errors
use webhost.Base.{
  ℕ, zero, suc, ◌+◌, ◌-◌, ◌%◌, ◌^◌, Bool, true, false, ◌&&◌, not, List, [], ◌∷◌, ◌++◌, Option, none,
  some, if◌then◌else◌, ltb, leb, length, get_or, take, drop, ◌==◌,
}
use webhost.Qt.{
  QChar, QString, QByteArray, QStringList, lit, str_eq, is_empty, right, c_string, buffered_lines,
  Library,
}
use webhost.Stdio.{line_text}
use webhost.Post.Form.{Post, PostError, error_ok, error_cannot_save_file}
use webhost.Maps.{Table, find, put}
use webhost.Post.Host.Settings.{remove_quotes}

-- The state of the loop over the lines, with the files that are closed.
pub record Upload : Type 0 where
  pub post : Post
  pub headers : Table QString
  pub in_header : Bool
  pub name : QString
  pub filename : QString
  pub fd : Option (QString × QByteArray)
  pub files : List (QString × QByteArray)

-- The lines that `getline` gives; the last may have no line feed.
unfoldable pub getline_lines : QByteArray → List QByteArray
getline_lines s =
    let (ls, rest) = buffered_lines s in ls ++ (if is_empty rest then [] else rest ∷ [])

unfoldable pub starts_with : QString → QString → Bool
starts_with s [] = true
starts_with [] (y ∷ t) = false
starts_with (x ∷ s) (y ∷ t) = x == y && starts_with s t

unfoldable pub contains_text : QString → QString → Bool
contains_text [] t = is_empty t
contains_text (x ∷ s) t = if starts_with (x ∷ s) t then true else contains_text s t

-- `lastIndexOf`, 0 if there is none
unfoldable pub last_index_of : QString → QChar → Option ℕ
last_index_of [] c = none
last_index_of (x ∷ s) c = elim (last_index_of s c) [
  | none ↦ if x == c then some 0 else none
  | some i ↦ some (suc i)
]

-- The text behind the last backslash, or behind the first character if there is none.
unfoldable pub base_name : QString → QString
base_name t =
    let index : ℕ = elim (last_index_of t 92) [ none ↦ 0 | some i ↦ i ] in
    right t (length t - index - 1)

unfoldable pub upload_name : QString → QString → QString
upload_name tempdir t = remove_quotes ((tempdir ++ lit "/") ++ base_name t)

-- The two bytes that end the last line are cut off, where there are two.
abbrev pub cut_end : QByteArray → QByteArray
cut_end b = if leb 2 (length b) then take (length b - 2) b else b

abbrev pub opened : Option (QString × QByteArray) → List (QString × QByteArray)
opened none = []
opened (some f) = f ∷ []

unfoldable pub end_part : Upload → Upload
end_part u = record u {
  files = u.files ++ elim u.fd [ none ↦ [] | some (n, b) ↦ (n, cut_end b) ∷ [] ];
  fd = none;
  name = [];
  filename = [];
  headers = [];
  in_header = true;
}

-- What is written to the open file, if there is one.
abbrev pub write_file : Option (QString × QByteArray) → QByteArray → Option (QString × QByteArray)
write_file none line = none
write_file (some (n, b)) line = some (n, b ++ line)

-- What is behind the texts of a list, the directory for the files, and which of these can be opened.
module _ (qt : Library) (past : QString) (tempdir : QString) (can_open : QString → Bool) where
  open qt use {split, simplified, to_lower, from_utf8}

  abbrev text_of : QByteArray → QString
  text_of line = simplified (line_text qt line)

  -- A field of the disposition; the flag says that a file could not be opened.
  unfoldable pub set_field : Upload → QStringList → Upload × Bool
  set_field u pairs =
      let key = simplified (to_lower (get_or pairs 0 [])) in
      let value = simplified (get_or pairs 1 past) in
      let filename = upload_name tempdir value in
      if str_eq key (lit "name")
      then (record u { name = remove_quotes value }, false)
      else if str_eq key (lit "filename")
      then (if can_open filename
          then (
            record u {
              filename = filename;
              files = u.files ++ opened u.fd;
              fd = some (filename, []);
            },
            false,
          )
          else (record u { filename = filename }, true))
      else (u, false)

  unfoldable pub set_fields : Upload → QStringList → Upload × Bool
  set_fields u [] = (u, false)
  set_fields u (f ∷ fs) =
      let (v, failed) = set_field u (split f (lit "=")) in
      let rest = set_fields v fs in if failed then (v, true) else rest

  -- The content disposition, if there is one.
  unfoldable pub disposition : Upload → Option QString → Upload × Bool
  disposition u none = (record u { in_header = false }, false)
  disposition u (some value) =
      let fields = split value (lit ";") in
      let (v, failed) =
        if str_eq (simplified (to_lower (get_or fields 0 []))) (lit "form-data")
        then set_fields u (drop 1 fields)
        else (u, false) in
      (record v { in_header = false }, failed)

  -- The blank line behind the headers.
  unfoldable pub end_header : Upload → Upload × Bool
  end_header u = disposition u (find u.headers (lit "content-disposition"))

  -- The parts behind the second are joined to it, without the colons.
  unfoldable pub join_tail : QString → QStringList → QString
  join_tail v [] = v
  join_tail v (p ∷ ps) = join_tail (v ++ p) ps

  unfoldable pub add_header_line : Upload → QString → Upload
  add_header_line u text =
      let hdr = split text (lit ":") in
      record u {
        headers =
            put u.headers (to_lower (get_or hdr 0 [])) (join_tail (get_or hdr 1 past) (drop 2 hdr));
      }

  unfoldable pub add_data : Upload → QByteArray → Upload
  add_data u line =
      let before : QString = elim (find u.post.values u.name) [ none ↦ [] | some v ↦ v ] in
      let text = simplified (before ++ from_utf8 (c_string line)) in
      let to_value = is_empty u.filename in
      record u {
        post = record u.post {
          values = put u.post.values u.name (if to_value then text else u.filename);
          filenames = put u.post.filenames u.name (not to_value);
        };
        fd = if to_value then u.fd else write_file u.fd line;
      }

  -- One round of the loop.
  unfoldable pub read_upload_line : QString → Upload → QByteArray → Upload × Bool
  read_upload_line sep u line =
      if contains_text (text_of line) sep
      then (end_part u, false)
      else if u.in_header
      then (if is_empty (text_of line)
          then end_header u
          else (add_header_line u (text_of line), false))
      else (add_data u line, false)

  abbrev pub with_error : PostError → Upload → Upload
  with_error e u = record u { post = record u.post { error = e } }

  -- The loop; `total` counts the bytes of the lines before.
  unfoldable pub read_upload_lines : QString → ℕ → ℕ → List QByteArray → Upload → Upload
  read_upload_lines sep limit total [] u = with_error error_ok u
  read_upload_lines sep limit total (line ∷ lines) u =
      let (v, failed) = read_upload_line sep u line in
      let rest = read_upload_lines sep limit ((total + length line) % 2 ^ 32) lines v in
      if ltb total limit
      then (if failed then with_error error_cannot_save_file v else rest)
      else with_error error_ok u

  abbrev pub new_upload : Post → Upload
  new_upload p = record {
    post = p;
    headers = [];
    in_header = true;
    name = [];
    filename = [];
    fd = none;
    files = [];
  }

  -- The first line is the separator.
  unfoldable pub read_parts : Post → ℕ → List QByteArray → Upload
  read_parts p content_length [] = with_error error_ok (new_upload p)
  read_parts p content_length (line ∷ lines) =
      read_upload_lines (text_of line) content_length (length line % 2 ^ 32) lines (new_upload p)

  unfoldable pub load_multipart_encoding : Post → ℕ → QByteArray → Upload
  load_multipart_encoding p content_length input = read_parts p content_length (getline_lines input)

-- The names that the destructor deletes: the value of each name that is a file.
unfoldable pub files_of : Table Bool → Table QString → QStringList
files_of [] values = []
files_of ((k, is_file) ∷ t) values =
    (if is_file then elim (find values k) [ none ↦ [] ∷ [] | some v ↦ v ∷ [] ] else [])
    ++ files_of t values

unfoldable pub deleted_files : Post → QStringList
deleted_files p = files_of p.filenames p.values
