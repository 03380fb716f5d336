-- ===== src/Post/Multipart/Uploads.antt =====
-- The files that the parts of a request are written to, and those that are deleted afterwards
-- (src/wh/whcgipost.cpp).
use webhost.Base.{
  ℕ, ◌+◌, ◌%◌, ◌^◌, ◌≡◌, refl, ◌⊎◌, inl, inr, Bool, true, false, List, [], ◌∷◌, Option, some, none,
  All, Bool-cases, length, ltb,
}
use webhost.Qt.{QString, QByteArray, is_empty, Library}
use webhost.Stdio.{line_text}
use webhost.Maps.{put-IsSorted, put-All}
use webhost.Post.Form.{Post, error_ok, error_cannot_save_file}
use webhost.Post.Multipart.{
  Upload, opened, write_file, add_header_line, add_data, read_upload_line, read_upload_lines,
  new_upload, load_multipart_encoding, read_parts, files_of, deleted_files, contains_text,
  getline_lines,
}
use webhost.Post.Multipart.Parts.{
  IsUnquoted, IsUnder, IsFile-put, AllUnder, IsUpload, files_of-IsUnder, find_same,
  end_part-IsUpload, IsUpload-in_header, IsUpload-headers, IsUpload-error, end_header-IsUpload,
}

module _ (qt : Library) (past dir : QString) (can_open : QString → Bool)
    (unquoted : IsUnquoted dir) where
  add_data-IsUpload :
      (u : Upload) (line : QByteArray)
      → IsUpload dir u
      → IsUpload dir (add_data qt past dir can_open u line)
  unfolding add_data
  add_data-IsUpload u line h = elim (Bool-cases (is_empty u.filename)) [
    | inl e ↦ rw e (record {
      filename = h.filename;
      fd = h.fd;
      files = h.files;
      sorted = put-IsSorted u.post.filenames u.name false h.sorted;
      values =
          put-All _ _ u.name (IsFile-put dir u.post.values u.name _) u.post.filenames false h.sorted
            tt h.values;
    })
    | inr e ↦ rw e (record {
      filename = h.filename;
      fd = written u.fd h.fd;
      files = h.files;
      sorted = put-IsSorted u.post.filenames u.name true h.sorted;
      values =
          put-All _ _ u.name (IsFile-put dir u.post.values u.name u.filename) u.post.filenames true
            h.sorted (u.filename, find_same u.post.values u.name u.filename, is_under h.filename e)
            h.values;
    })
  ]
    where
      written :
          (f : Option (QString × QByteArray))
          → AllUnder dir (opened f)
          → AllUnder dir (opened (write_file f line))
      written none k = tt
      written (some x) k = k

      is_under :
          (is_empty u.filename ≡ true) ⊎ IsUnder dir u.filename
          → is_empty u.filename ≡ false
          → IsUnder dir u.filename
      is_under (inl t) e = absurd (cc (t, e))
      is_under (inr t) e = t

  read_upload_line-IsUpload :
      (sep : QString) (u : Upload) (line : QByteArray)
      → IsUpload dir u
      → IsUpload dir (read_upload_line qt past dir can_open sep u line).0
  unfolding read_upload_line add_header_line
  read_upload_line-IsUpload sep u line h =
      elim (Bool-cases (contains_text (qt.simplified (line_text qt line)) sep)) [
        | inl e ↦ rw e (end_part-IsUpload dir u h)
        | inr e ↦ elim (Bool-cases u.in_header) [
          | inl f ↦ elim (Bool-cases (is_empty (qt.simplified (line_text qt line)))) [
            | inl g ↦
                rw (e, f, g)
                  (end_header-IsUpload qt past dir can_open unquoted _
                    (IsUpload-in_header dir true u h))
            | inr g ↦ rw (e, f, g) (IsUpload-in_header dir true _ (IsUpload-headers dir _ u h))
          ]
          | inr f ↦ rw (e, f) (add_data-IsUpload _ line (IsUpload-in_header dir false u h))
        ]
      ]

  read_upload_lines-IsUpload :
      (lines : List QByteArray) (sep : QString) (limit total : ℕ) (u : Upload)
      → IsUpload dir u
      → IsUpload dir (read_upload_lines qt past dir can_open sep limit total lines u)
  unfolding read_upload_lines
  read_upload_lines-IsUpload [] sep limit total u h = IsUpload-error dir error_ok u h
  read_upload_lines-IsUpload (line ∷ lines) sep limit total u h =
      let step = read_upload_line qt past dir can_open sep u line in
      let one = read_upload_line-IsUpload sep u line h in
      let rest =
        read_upload_lines-IsUpload lines sep limit ((total + length line) % 2 ^ 32) step.0 one in
      elim (Bool-cases (ltb total limit)) [
        | inl e ↦ elim (Bool-cases step.1) [
          | inl f ↦ rw (e, f) (IsUpload-error dir error_cannot_save_file step.0 one)
          | inr f ↦ rw (e, f) rest
        ]
        | inr e ↦ rw e (IsUpload-error dir error_ok u h)
      ]

  pub load_multipart_encoding-IsUnder :
      (p : Post) (content_length : ℕ) (input : QByteArray)
      → p.filenames ≡ []
      → All
          (IsUnder dir)
          (deleted_files (load_multipart_encoding qt past dir can_open p content_length input).post)
        × AllUnder dir (load_multipart_encoding qt past dir can_open p content_length input).files
        × AllUnder dir
            (opened (load_multipart_encoding qt past dir can_open p content_length input).fd)
  unfolding load_multipart_encoding read_parts deleted_files is_empty
  load_multipart_encoding-IsUnder p content_length input e = go (getline_lines input)
    where
      new : IsUpload dir (new_upload qt past dir can_open p)
      new = record { filename = inl refl; fd = tt; files = tt; sorted = rw e tt; values = rw e tt }

      under :
          (u : Upload)
          → IsUpload dir u
          → All (IsUnder dir) (files_of u.post.filenames u.post.values)
            × AllUnder dir u.files
            × AllUnder dir (opened u.fd)
      under u h = (files_of-IsUnder dir u.post.filenames u.post.values h.values, h.files, h.fd)

      go :
          (lines : List QByteArray)
          → All
              (IsUnder dir)
              (deleted_files (read_parts qt past dir can_open p content_length lines).post)
            × AllUnder dir (read_parts qt past dir can_open p content_length lines).files
            × AllUnder dir (opened (read_parts qt past dir can_open p content_length lines).fd)
      go [] = under _ (IsUpload-error dir error_ok _ new)
      go (line ∷ lines) = under _ (
          read_upload_lines-IsUpload lines (qt.simplified (line_text qt line)) content_length
            (length line % 2 ^ 32) _ new)
