-- ===== src/Post/Request.antt =====
-- A request from its environment to its end: the constructor, `Initialize` and the destructor of
-- WHCgiPost (src/wh/whcgipost.cpp). What is read of the host (Post.Host) and the objects of Qt that
-- are made and deleted are left out.
pub mod Cleanup
use webhost.Base.{
  ℕ, Bool, true, false, List, [], ◌∷◌, ◌++◌, Option, some, none, if◌then◌else◌, get_or, map,
}
use webhost.Qt.{QString, QByteArray, QStringList, lit, str_eq, Library}
use webhost.Stdio.{line_text}
use webhost.Daemon.World.{Effect, delete_file, delete_directory}
use webhost.Post.Form.{
  Post, error_ok, error_not_post, error_no_temp_dir, error_not_initialized, load_url_encoding,
}
use webhost.Post.Multipart.{load_multipart_encoding, deleted_files}

-- The environment, and what `mkdtemp` makes of a template.
abbrev pub Environment : Type 0
Environment = QString → Option QByteArray

pub record CgiPost : Type 0 where
  pub post : Post
  pub tempdir : Option QString
  pub auto_delete : Bool

abbrev pub new_post : Post
new_post = record { error = error_not_initialized; values = []; filenames = [] }

-- The template of the directory for the files.
unfoldable pub tempdir_template : Environment → QByteArray
tempdir_template getenv =
    elim (getenv (lit "TMPDIR")) [ none ↦ lit "/tmp" | some d ↦ d ] ++ lit "/webhostXXXXXX"

module _ (qt : Library) (past : QString) (can_open : QString → Bool) where
  open qt use {split, trimmed, to_lower, to_uint}

  unfoldable pub content_length_of : Option QByteArray → ℕ
  content_length_of none = 0
  content_length_of (some text) = (to_uint (line_text qt text)).0

  -- The encoding decides how the body is read; `behind` is what stands in the buffer behind it.
  unfoldable pub load_body : QString → Option QByteArray → Post → ℕ → QByteArray → QByteArray → Post
  load_body tempdir none p content_length input behind = p
  load_body tempdir (some content_type) p content_length input behind =
      let kind = to_lower (trimmed (get_or (split (line_text qt content_type) (lit ";")) 0 [])) in
      if str_eq kind (lit "application/x-www-form-urlencoded")
      then load_url_encoding qt p content_length input behind
      else if str_eq kind (lit "multipart/form-data")
      then (load_multipart_encoding qt past tempdir can_open p content_length input).post
      else p

  -- The constructor, once there is a directory or none could be made.
  unfoldable pub read_request :
      Bool → Option QString → Environment → QByteArray → QByteArray → CgiPost
  read_request auto_delete none getenv input behind = record {
    post = record new_post { error = error_no_temp_dir };
    tempdir = none;
    auto_delete = auto_delete;
  }
  read_request auto_delete (some dir) getenv input behind = record {
    post = elim (getenv (lit "REQUEST_METHOD")) [
      | none ↦ record new_post { error = error_not_post }
      | some method ↦
          load_body dir (getenv (lit "CONTENT_TYPE")) (record new_post { error = error_ok })
            (content_length_of (getenv (lit "CONTENT_LENGTH"))) input behind
    ];
    tempdir = some dir;
    auto_delete = auto_delete;
  }

  unfoldable pub cgi_post :
      Bool → (QByteArray → Option QString) → Environment → QByteArray → QByteArray → CgiPost
  cgi_post auto_delete mkdtemp getenv input behind =
      read_request auto_delete (mkdtemp (tempdir_template getenv)) getenv input behind

-- The destructor.
unfoldable pub destroy : CgiPost → List Effect
destroy r =
    if r.auto_delete
    then map delete_file (deleted_files r.post)
      ++ elim r.tempdir [ none ↦ [] | some dir ↦ delete_directory dir ∷ [] ]
    else []
