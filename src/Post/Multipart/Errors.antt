-- ===== src/Post/Multipart/Errors.antt =====
-- The error that `LoadMultipartEncoding` (src/wh/whcgipost.cpp) leaves, against the same code where
-- every file can be opened.
use webhost.Base.{
  ℕ, ◌+◌, ◌%◌, ◌^◌, ◌≡◌, refl, sym, subst, ap, ◌∙◌, ◌⊎◌, inl, inr, Bool, true, false, List, [], ◌∷◌,
  ◌++◌, Option, some, none, Bool-cases, length, ltb, get_or, drop, All-append, append_assoc,
  append-nil, if◌then◌else◌,
}
use webhost.Qt.{QString, QByteArray, QStringList, lit, str_eq, is_empty, Library}
use webhost.Stdio.{line_text}
use webhost.Post.Form.{Post, PostError, error_ok, error_cannot_save_file}
use webhost.Post.Multipart.{
  Upload, upload_name, opened, add_data, add_header_line, join_tail, new_upload, with_error,
  set_field, set_fields, disposition, end_header, read_upload_line, read_upload_lines, read_parts,
  load_multipart_encoding, contains_text, getline_lines,
}
use webhost.Post.Multipart.Opening.{
  first_names, opened_names, first_names-append, end_part-opened_names, written-opened, Opens,
  Refuses, Follows, Follows-same, Refuses-before, Refuses-behind, Follows-then,
}

abbrev every : QString → Bool
every f = true

module _ (qt : Library) (past dir : QString) (can_open : QString → Bool) where
  set_field-Follows :
      (u : Upload) (pairs : QStringList)
      → Follows can_open u
          (set_field qt past dir can_open u pairs)
          (set_field qt past dir every u pairs)
  unfolding set_field
  set_field-Follows u pairs =
      let key = qt.simplified (qt.to_lower (get_or pairs 0 [])) in
      let filename = upload_name dir (qt.simplified (get_or pairs 1 past)) in
      let added = ap (λ l. l ++ filename ∷ []) (first_names-append u.files (opened u.fd)) in
      elim (Bool-cases (str_eq key (lit "name"))) [
        | inl e ↦ rw e (Follows-same can_open u _ refl)
        | inr e ↦ elim (Bool-cases (str_eq key (lit "filename"))) [
          | inl f ↦ elim (Bool-cases (can_open filename)) [
            | inl o ↦ rw (e, f, o) (filename ∷ [], added, refl, inl (refl, (o, tt)))
            | inr o ↦ rw (e, f, o) (filename ∷ [], added, refl, inr (refl, ([], [], refl, tt, o)))
          ]
          | inr f ↦ rw (e, f) (Follows-same can_open u u refl)
        ]
      ]

  set_fields-Follows :
      (fs : QStringList) (u : Upload)
      → Follows can_open u
          (set_fields qt past dir can_open u fs)
          (set_fields qt past dir every u fs)
  unfolding set_fields
  set_fields-Follows [] u = Follows-same can_open u u refl
  set_fields-Follows (f ∷ fs) u =
      let pairs = qt.split f (lit "=") in
      Follows-then can_open u (set_field qt past dir can_open u pairs)
        (set_field qt past dir every u pairs) (λ v. set_fields qt past dir can_open v fs)
        (λ v. set_fields qt past dir every v fs) (set_field-Follows u pairs)
        (set_fields-Follows fs _)

  disposition-Follows :
      (u : Upload) (value : Option QString)
      → Follows can_open u
          (disposition qt past dir can_open u value)
          (disposition qt past dir every u value)
  unfolding disposition
  disposition-Follows u none = Follows-same can_open u _ refl
  disposition-Follows u (some value) =
      let fields = qt.split value (lit ";") in
      elim (Bool-cases
        (str_eq (qt.simplified (qt.to_lower (get_or fields 0 []))) (lit "form-data"))) [
          | inl e ↦
              let (more, names, fine, next) = set_fields-Follows (drop 1 fields) u in
              rw e (
                more,
                names,
                fine,
                elim next [
                  | inl (same, o) ↦ inl (ap (λ x. (record x.0 { in_header = false }, x.1)) same, o)
                  | inr (failed, r) ↦ inr (failed, r)
                ],
              )
          | inr e ↦ rw e (Follows-same can_open u _ refl)
        ]

  read_upload_line-Follows :
      (sep : QString) (u : Upload) (line : QByteArray)
      → Follows can_open u
          (read_upload_line qt past dir can_open sep u line)
          (read_upload_line qt past dir every sep u line)
  unfolding read_upload_line end_header add_data add_header_line join_tail
  read_upload_line-Follows sep u line =
      let text = qt.simplified (line_text qt line) in
      elim (Bool-cases (contains_text text sep)) [
        | inl e ↦ rw e (Follows-same can_open u _ (end_part-opened_names u))
        | inr e ↦ elim (Bool-cases u.in_header) [
          | inl f ↦ elim (Bool-cases (is_empty text)) [
            | inl g ↦ rw (e, f, g) (disposition-Follows (record u { in_header = true }) _)
            | inr g ↦ rw (e, f, g) (Follows-same can_open (record u { in_header = true }) _ refl)
          ]
          | inr f ↦
              rw (e, f)
                (Follows-same can_open (record u { in_header = false }) _
                  (ap (λ l. first_names u.files ++ l)
                    (written-opened u.fd line (is_empty u.filename))))
        ]
      ]

  abbrev ended : PostError → Upload → Upload
  ended e u = with_error qt past dir can_open e u

  -- What the loop makes of a state, and what it makes of it where every file can be opened.
  abbrev Ends : Upload → Upload → Upload → Type 0
  Ends u a t =
      (more : QStringList) × (opened_names t ≡ opened_names u ++ more)
      × (t.post.error ≡ error_ok)
      × (((a ≡ t) × Opens can_open more)
          ⊎ ((a.post.error ≡ error_cannot_save_file) × Refuses can_open more a.filename))

  Ends-ok : (u : Upload) → Ends u (ended error_ok u) (ended error_ok u)
  Ends-ok u = ([], sym (append-nil (opened_names u)), refl, inl (refl, tt))

  Ends-behind :
      (u : Upload) (a t : Upload × Bool) (f g : Upload → Upload)
      → Follows can_open u a t
      → Ends t.0 (f t.0) (g t.0)
      → Ends u
          (if a.1 then ended error_cannot_save_file a.0 else f a.0)
          (if t.1 then ended error_cannot_save_file t.0 else g t.0)
  Ends-behind u a t f g (more, e, fine, inl (same, o)) (more2, e2, fine2, next) =
      rw (same, fine)
        (
          more ++ more2,
          e2 ∙ ap (λ l. l ++ more2) e ∙ append_assoc (opened_names u) more more2,
          fine2,
          elim next [
            | inl (same2, o2) ↦ inl (same2, All-append (λ h. can_open h ≡ true) more more2 o o2)
            | inr (failed, r) ↦ inr (failed, Refuses-before can_open more more2 _ o r)
          ],
        )
  Ends-behind u a t f g (more, e, fine, inr (failed, r)) (more2, e2, fine2, next) =
      rw (failed, fine)
        (
          more ++ more2,
          e2 ∙ ap (λ l. l ++ more2) e ∙ append_assoc (opened_names u) more more2,
          fine2,
          inr (refl, Refuses-behind can_open more more2 _ r),
        )

  read_upload_lines-Ends :
      (lines : List QByteArray) (sep : QString) (limit total : ℕ) (u : Upload)
      → Ends u
          (read_upload_lines qt past dir can_open sep limit total lines u)
          (read_upload_lines qt past dir every sep limit total lines u)
  unfolding read_upload_lines
  read_upload_lines-Ends [] sep limit total u = Ends-ok u
  read_upload_lines-Ends (line ∷ lines) sep limit total u =
      let n = (total + length line) % 2 ^ 32 in
      elim (Bool-cases (ltb total limit)) [
        | inl e ↦ rw e (
            Ends-behind u (read_upload_line qt past dir can_open sep u line)
              (read_upload_line qt past dir every sep u line)
              (λ v. read_upload_lines qt past dir can_open sep limit n lines v)
              (λ v. read_upload_lines qt past dir every sep limit n lines v)
              (read_upload_line-Follows sep u line) (read_upload_lines-Ends lines sep limit n _))
        | inr e ↦ rw e (Ends-ok u)
      ]

  -- Whatever the bytes are: take the files that reading the parts opens, in their order, where every
  -- file can be opened. If each of them can be opened, reading the parts ends without an error and
  -- with the same state. Otherwise it ends with the error that a file cannot be saved, at the first
  -- of them that cannot be opened.
  pub load_multipart_encoding-error :
      (p : Post) (content_length : ℕ) (input : QByteArray)
      → let u = load_multipart_encoding qt past dir can_open p content_length input in
        let v = load_multipart_encoding qt past dir (λ f. true) p content_length input in
        ((u ≡ v) × (u.post.error ≡ error_ok) × Opens can_open (opened_names v))
        ⊎ ((u.post.error ≡ error_cannot_save_file) × Refuses can_open (opened_names v) u.filename)
  unfolding load_multipart_encoding read_parts
  load_multipart_encoding-error p content_length input = go (getline_lines input)
    where
      go :
          (lines : List QByteArray)
          → let u = read_parts qt past dir can_open p content_length lines in
            let v = read_parts qt past dir (λ f. true) p content_length lines in
            ((u ≡ v) × (u.post.error ≡ error_ok) × Opens can_open (opened_names v))
            ⊎ ((u.post.error ≡ error_cannot_save_file)
                × Refuses can_open (opened_names v) u.filename)
      go [] = inl (refl, refl, tt)
      go (line ∷ lines) =
          let (more, names, fine, next) =
            read_upload_lines-Ends lines (qt.simplified (line_text qt line)) content_length
              (length line % 2 ^ 32) (new_upload qt past dir can_open p) in
          elim next [
            | inl (same, o) ↦
                inl (same, ap (λ w. w.post.error) same ∙ fine, subst (Opens can_open) (sym names) o)
            | inr (failed, refused) ↦ inr (
              failed,
              subst
                  (λ l.
                    Refuses can_open l
                      (read_parts qt past dir can_open p content_length (line ∷ lines)).filename)
                  (sym names) refused,
            )
          ]
