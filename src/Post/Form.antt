-- ===== src/Post/Form.antt =====
-- The values of a request (src/wh/whcgipost.h, src/wh/whcgipost.cpp): the maps of values and files,
-- `value` and `getValue`, `names`, and `LoadUrlEncoding`.
pub mod RoundTrip
use webhost.Base.{
  ℕ, Bool, true, false, List, [], ◌∷◌, ◌++◌, Option, none, some, if◌then◌else◌, length, get_or,
  take, map, ℤ, pos, ◌==◌,
}
use webhost.Qt.{QString, QByteArray, QStringList, lit, str_eq, str_lt, Library, HostAddress}
use webhost.Stdio.{line_text}
use webhost.Maps.{Table, find, put}
use webhost.Post.{url_decode}

pub data PostError : Type 0 where
  error_ok error_not_post error_no_temp_dir error_malformed_data error_post_too_large error_internal
        error_not_initialized error_cannot_save_file :
      PostError

-- `errorString`
unfoldable pub error_string : PostError → QString
error_string error_ok = lit "OK"
error_string error_not_post = lit "Request is not POST"
error_string error_no_temp_dir = lit "Unable to create temporary directory"
error_string error_malformed_data = lit "The data is malformed"
error_string error_post_too_large = lit "POST is too large"
error_string error_internal = lit "Internal error"
error_string error_not_initialized = lit "POST class not initialized"
error_string error_cannot_save_file = lit "Cannot save temporary file"

-- `post_error`, `post_values` and `post_filenames`
pub record Post : Type 0 where
  pub error : PostError
  pub values : Table QString
  pub filenames : Table Bool

-- `names`
unfoldable pub names : Post → QStringList
names p = map (λ e. e.0) p.values

-- `getValue` of a text; a name that is missing gives an empty text.
unfoldable pub get_value_text : Post → QString → QString × Bool
get_value_text p name = elim (find p.values name) [ none ↦ ([], false) | some v ↦ (v, true) ]

-- `isFile`, which makes an entry of a name that is missing
unfoldable pub is_file : Post → QString → Bool × Post
is_file p name = elim (find p.filenames name) [
  | none ↦ (false, record p { filenames = put p.filenames name false })
  | some b ↦ (b, p)
]

module _ (qt : Library) where
  open qt use {split, to_int, to_long_long, to_bool, host_address}

  -- `getValue` of an address leaves it as it is if the name is missing.
  unfoldable pub get_value_address : Post → QString → HostAddress → HostAddress × Bool
  get_value_address p name before =
      let (v, ok) = get_value_text p name in if ok then (host_address v, true) else (before, false)

  unfoldable pub get_value_int : Post → QString → ℤ × Bool
  get_value_int p name = elim (find p.values name) [
    | none ↦ (pos 0, false)
    | some v ↦ ((to_int v).0, true)
  ]

  unfoldable pub get_value_long : Post → QString → ℤ × Bool
  get_value_long p name = elim (find p.values name) [
    | none ↦ (pos 0, false)
    | some v ↦ ((to_long_long v).0, true)
  ]

  unfoldable pub get_value_bool : Post → QString → Bool × Bool
  get_value_bool p name = elim (find p.values name) [
    | none ↦ (false, false)
    | some v ↦ (to_bool v, true)
  ]

  -- A field that is not a name and a value is passed over.
  unfoldable pub load_field : Post → QStringList → Post
  load_field p line =
      let name = get_or line 0 [] in
      if length line == 2
      then record p {
        values = put p.values name (url_decode qt (get_or line 1 []));
        filenames = put p.filenames name false;
      }
      else p

  unfoldable pub load_fields : Post → QStringList → Post
  load_fields p [] = p
  load_fields p (line ∷ lines) = load_fields (load_field p (split line (lit "="))) lines

  -- `LoadUrlEncoding` of the bytes that one read of `content_length` bytes gives, and of those that
  -- stand behind them in the buffer.
  unfoldable pub load_url_encoding : Post → ℕ → QByteArray → QByteArray → Post
  load_url_encoding p content_length input behind =
      let got = take content_length input in
      let filled = take content_length (got ++ behind) in
      let loaded : Post = elim got [
        | [] ↦ p
        | b ∷ bs ↦ load_fields p (split (line_text qt filled) (lit "&"))
      ] in
      record loaded { error = error_ok }
