-- ===== src/Post/Request/Cleanup.antt =====
-- What the destructor of a request (src/wh/whcgipost.cpp) deletes.
use webhost.Base.{
  ℕ, sym, subst, ◌≡◌, refl, Bool, true, false, [], ◌∷◌, ◌++◌, Option, some, none, map, All,
  All-append, Bool-cases, inl, inr, get_or, length, ◌==◌, take,
}
use webhost.Qt.{Lacks, QString, QByteArray, QStringList, lit, str_eq, Library}
use webhost.Stdio.{line_text}
use webhost.Maps.{Table, put, IsSorted, put-IsSorted, put-All}
use webhost.Daemon.World.{Effect, delete_file, delete_directory}
use webhost.Post.Form.{Post, error_ok, error_not_post, load_field, load_fields, load_url_encoding}
use webhost.Post.Multipart.{deleted_files, files_of}
use webhost.Post.Multipart.Parts.{IsUnder, IsUnquoted, Lacks-IsUnquoted}
use webhost.Post.Multipart.Uploads.{load_multipart_encoding-IsUnder}
use webhost.Post.Request.{
  Environment, new_post, tempdir_template, content_length_of, load_body, read_request, cgi_post,
  destroy,
}

-- The effect deletes the directory or a path that begins with it.
abbrev pub DeletesIn : QString → Effect → Type 0
DeletesIn dir (delete_file f) = IsUnder dir f
DeletesIn dir (delete_directory d) = d ≡ dir
DeletesIn dir _ = ⊥

-- No value is a file.
abbrev NoFiles : Table Bool → Type 0
NoFiles t = IsSorted t × All (λ e. e.1 ≡ false) t

put-NoFiles : (t : Table Bool) (k : QString) → NoFiles t → NoFiles (put t k false)
put-NoFiles t k h = (put-IsSorted t k false h.0, put-All _ _ k (λ e ne p. p) t false h.0 refl h.1)

files_of-NoFiles :
    (t : Table Bool) (values : Table QString) → All (λ e. e.1 ≡ false) t → files_of t values ≡ []
unfolding files_of
files_of-NoFiles [] values h = refl
files_of-NoFiles ((k, b) ∷ t) values h = rw (h.0) (files_of-NoFiles t values h.1)

deleted :
    (dir : QString) (fs : QStringList)
    → All (IsUnder dir) fs
    → All (DeletesIn dir) (map delete_file fs)
deleted dir [] h = tt
deleted dir (f ∷ fs) h = (h.0, deleted dir fs h.1)

module _ (qt : Library) where
  load_field-NoFiles :
      (p : Post) (line : QStringList)
      → NoFiles p.filenames
      → NoFiles (load_field qt p line).filenames
  unfolding load_field
  load_field-NoFiles p line h = elim (Bool-cases (length line == 2)) [
    | inl e ↦ rw e (put-NoFiles p.filenames (get_or line 0 []) h)
    | inr e ↦ rw e h
  ]

  load_fields-NoFiles :
      (fs : QStringList) (p : Post) → NoFiles p.filenames → NoFiles (load_fields qt p fs).filenames
  unfolding load_fields
  load_fields-NoFiles [] p h = h
  load_fields-NoFiles (f ∷ fs) p h =
      load_fields-NoFiles fs _ (load_field-NoFiles p (qt.split f (lit "=")) h)

  load_url_encoding-NoFiles :
      (p : Post) (n : ℕ) (input behind : QByteArray)
      → NoFiles p.filenames
      → NoFiles (load_url_encoding qt p n input behind).filenames
  unfolding load_url_encoding
  load_url_encoding-NoFiles p n input behind h = go (take n input)
    where
      go :
          (got : QByteArray)
          → NoFiles
              (elim got as (λ x. Post) [
                | [] ↦ p
                | b ∷ bs ↦
                    load_fields qt p
                      (qt.split (line_text qt (take n (take n input ++ behind))) (lit "&"))
              ]).filenames
      go [] = h
      go (b ∷ bs) = load_fields-NoFiles _ p h

module _ (qt : Library) (past : QString) (can_open : QString → Bool) where
  load_body-IsUnder :
      (dir : QString) (kind : Option QByteArray) (p : Post) (n : ℕ) (input behind : QByteArray)
      → IsUnquoted dir
      → p.filenames ≡ []
      → All (IsUnder dir) (deleted_files (load_body qt past can_open dir kind p n input behind))
  unfolding load_body deleted_files files_of
  load_body-IsUnder dir none p n input behind unquoted h = rw h tt
  load_body-IsUnder dir (some kind) p n input behind unquoted h =
      let text = qt.to_lower (qt.trimmed (get_or (qt.split (line_text qt kind) (lit ";")) 0 [])) in
      elim (Bool-cases (str_eq text (lit "application/x-www-form-urlencoded"))) [
        | inl e ↦
            let none_there = load_url_encoding-NoFiles qt p n input behind (rw h (tt, tt)) in
            rw (e, files_of-NoFiles _ (load_url_encoding qt p n input behind).values none_there.1)
              tt
        | inr e ↦ elim (Bool-cases (str_eq text (lit "multipart/form-data"))) [
          | inl f ↦
              rw (e, f)
                ((load_multipart_encoding-IsUnder qt past dir can_open unquoted p n input h).0)
          | inr f ↦ rw (e, f, h) tt
        ]
      ]

  request-IsUnder :
      (dir : QString) (method kind : Option QByteArray) (n : ℕ) (input behind : QByteArray)
      → IsUnquoted dir
      → All (IsUnder dir) (
          deleted_files (elim method as (λ x. Post) [
            | none ↦ record new_post { error = error_not_post }
            | some m ↦
                load_body qt past can_open dir kind
                  (record new_post { error = error_ok })
                  n
                  input
                  behind
          ]))
  unfolding deleted_files files_of
  request-IsUnder dir none kind n input behind unquoted = tt
  request-IsUnder dir (some m) kind n input behind unquoted =
      load_body-IsUnder dir kind (record new_post { error = error_ok }) n input behind unquoted refl

  destroy-read_request :
      (auto_delete : Bool) (getenv : Environment) (input behind : QByteArray) (dir : QString)
      → IsUnquoted dir
      → All
          (DeletesIn dir)
          (destroy (read_request qt past can_open auto_delete (some dir) getenv input behind))
  unfolding destroy read_request
  destroy-read_request false getenv input behind dir unquoted = tt
  destroy-read_request true getenv input behind dir unquoted =
      let method = getenv (lit "REQUEST_METHOD") in
      let kind = getenv (lit "CONTENT_TYPE") in
      let n = content_length_of qt past can_open (getenv (lit "CONTENT_LENGTH")) in
      All-append (DeletesIn dir) (map delete_file _) (delete_directory dir ∷ [])
        (deleted dir _ (request-IsUnder dir method kind n input behind unquoted)) (refl, tt)

  -- Whatever the environment and the body are, where the directory for the files was made and its
  -- name holds no quotation mark, the destructor deletes nothing but that directory and files whose
  -- paths, as texts, begin with its name and a slash. A path may go on with `../`.
  pub destroy-cgi_post :
      (auto_delete : Bool) (mkdtemp : QByteArray → Option QString) (getenv : Environment)
      (input behind : QByteArray) (dir : QString)
      → mkdtemp (tempdir_template getenv) ≡ some dir
      → Lacks 34 dir
      → All
          (DeletesIn dir)
          (destroy (cgi_post qt past can_open auto_delete mkdtemp getenv input behind))
  unfolding cgi_post
  destroy-cgi_post auto_delete mkdtemp getenv input behind dir made unquoted =
      subst
        (λ t.
          All (DeletesIn dir)
            (destroy (read_request qt past can_open auto_delete t getenv input behind)))
        (sym made)
        (destroy-read_request auto_delete getenv input behind dir (Lacks-IsUnquoted dir unquoted))
