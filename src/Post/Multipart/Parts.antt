-- ===== src/Post/Multipart/Parts.antt =====
-- The header of a part names a file whose path begins with the directory for the files, where that
-- has no quotation mark (src/wh/whcgipost.cpp).
use webhost.Base.{
  append_assoc, arith, ◌≡◌, refl, ap, ◌∙◌, ◌⊎◌, inl, inr, Bool, true, false, List, [], ◌∷◌, ◌++◌,
  Option, some, none, if◌then◌else◌, All, All-append, Bool-cases, ◌==◌, get_or, drop,
}
use webhost.Qt.{
  Lacks, QString, QByteArray, QStringList, lit, str_eq, str_eq_refl, is_empty, Library,
}
use webhost.Maps.{Table, find, put, find-put, IsSorted}
use webhost.Post.Form.{PostError}
use webhost.Post.Host.Settings.{remove_quotes}
use webhost.Post.Multipart.{
  Upload, upload_name, base_name, opened, end_part, cut_end, set_field, set_fields, end_header,
  disposition, files_of,
}

-- The name begins with the directory and a slash. What follows is not looked at.
abbrev pub IsUnder : QString → QString → Type 0
IsUnder dir f = (rest : QString) × (f ≡ dir ++ (lit "/" ++ rest))

remove_quotes-append : (s t : QString) → remove_quotes (s ++ t) ≡ remove_quotes s ++ remove_quotes t
unfolding remove_quotes
remove_quotes-append [] t = refl
remove_quotes-append (c ∷ s) t = elim (Bool-cases (c == 34)) [
  | inl e ↦ rw e (remove_quotes-append s t)
  | inr e ↦ rw e (ap (◌∷◌ c) (remove_quotes-append s t))
]

-- A text without quotation marks is left as it is.
pub IsUnquoted : QString → Type 0
IsUnquoted s = remove_quotes s ≡ s

pub Lacks-IsUnquoted : (s : QString) → Lacks 34 s → IsUnquoted s
unfolding remove_quotes IsUnquoted
Lacks-IsUnquoted [] h = refl
Lacks-IsUnquoted (c ∷ s) h =
    let other : (c == 34) ≡ false = ground (arith, h.0) in
    rw other (ap (◌∷◌ c) (Lacks-IsUnquoted s h.1))

pub upload_name-IsUnder : (dir t : QString) → IsUnquoted dir → IsUnder dir (upload_name dir t)
unfolding upload_name IsUnquoted lit remove_quotes
upload_name-IsUnder dir t unquoted = (
  remove_quotes (base_name t),
  remove_quotes-append (dir ++ lit "/") (base_name t)
      ∙ ap (λ d. d ++ remove_quotes (base_name t))
          (remove_quotes-append dir (lit "/") ∙ ap (λ d. d ++ lit "/") unquoted)
      ∙ append_assoc dir (lit "/") (remove_quotes (base_name t)),
)

-- The value of a name that is a file begins with the directory.
abbrev pub IsFile : QString → Table QString → QString × Bool → Type 0
IsFile dir values (k, false) = Unit
IsFile dir values (k, true) = (v : QString) × (find values k ≡ some v) × IsUnder dir v

abbrev pub AllUnder : QString → List (QString × QByteArray) → Type 0
AllUnder dir = All (λ f. IsUnder dir f.0)

pub record IsUpload (dir : QString) (u : Upload) : Type 0 where
  pub filename : (is_empty u.filename ≡ true) ⊎ IsUnder dir u.filename
  pub fd : AllUnder dir (opened u.fd)
  pub files : AllUnder dir u.files
  pub sorted : IsSorted u.post.filenames
  pub values : All (IsFile dir u.post.values) u.post.filenames

pub files_of-IsUnder :
    (dir : QString) (t : Table Bool) (values : Table QString)
    → All (IsFile dir values) t
    → All (IsUnder dir) (files_of t values)
unfolding files_of
files_of-IsUnder dir [] values h = tt
files_of-IsUnder dir ((k, false) ∷ t) values h = files_of-IsUnder dir t values h.1
files_of-IsUnder dir ((k, true) ∷ t) values ((v, e, under), h) =
    rw e (under, files_of-IsUnder dir t values h)

-- A value that is put under another name leaves the files as they are.
pub IsFile-put :
    (dir : QString) (values : Table QString) (k v : QString) (e : QString × Bool)
    → str_eq k e.0 ≡ false
    → IsFile dir values e
    → IsFile dir (put values k v) e
IsFile-put dir values k v (j, false) ne h = tt
IsFile-put dir values k v (j, true) ne (x, e, under) = (x, find-put values k j v ∙ rw ne e, under)

pub find_same : (values : Table QString) (k v : QString) → find (put values k v) k ≡ some v
find_same values k v = find-put values k k v ∙ rw (str_eq_refl k) refl

pub end_part-IsUpload : (dir : QString) (u : Upload) → IsUpload dir u → IsUpload dir (end_part u)
unfolding end_part is_empty
end_part-IsUpload dir u h = record {
  filename = inl refl;
  fd = tt;
  files = All-append _ u.files _ h.files (closed u.fd h.fd);
  sorted = h.sorted;
  values = h.values;
}
  where
    closed :
        (f : Option (QString × QByteArray))
        → AllUnder dir (opened f)
        → AllUnder dir (elim f [ none ↦ [] | some x ↦ (x.0, cut_end x.1) ∷ [] ])
    closed none k = tt
    closed (some x) k = k

module _ (dir : QString) where
  IsUpload-named :
      (u : Upload) (f : QString)
      → IsUnder dir f
      → IsUpload dir u
      → IsUpload dir (record u { filename = f })
  IsUpload-named u f under h = record {
    filename = inr under;
    fd = h.fd;
    files = h.files;
    sorted = h.sorted;
    values = h.values;
  }

  pub IsUpload-in_header :
      (b : Bool) (u : Upload) → IsUpload dir u → IsUpload dir (record u { in_header = b })
  IsUpload-in_header b u h = record {
    filename = h.filename;
    fd = h.fd;
    files = h.files;
    sorted = h.sorted;
    values = h.values;
  }

  pub IsUpload-headers :
      (t : Table QString) (u : Upload) → IsUpload dir u → IsUpload dir (record u { headers = t })
  IsUpload-headers t u h = record {
    filename = h.filename;
    fd = h.fd;
    files = h.files;
    sorted = h.sorted;
    values = h.values;
  }

  pub IsUpload-error :
      (e : PostError) (u : Upload)
      → IsUpload dir u
      → IsUpload dir (record u { post = record u.post { error = e } })
  IsUpload-error e u h = record {
    filename = h.filename;
    fd = h.fd;
    files = h.files;
    sorted = h.sorted;
    values = h.values;
  }

module _ (qt : Library) (past dir : QString) (can_open : QString → Bool)
    (unquoted : IsUnquoted dir) where
  set_field-IsUpload :
      (u : Upload) (pairs : QStringList)
      → IsUpload dir u
      → IsUpload dir (set_field qt past dir can_open u pairs).0
  unfolding set_field
  set_field-IsUpload u pairs h =
      let key = qt.simplified (qt.to_lower (get_or pairs 0 [])) in
      let value = qt.simplified (get_or pairs 1 past) in
      let under = upload_name-IsUnder dir value unquoted in
      let named = IsUpload-named dir u (upload_name dir value) under h in
      elim (Bool-cases (str_eq key (lit "name"))) [
        | inl e ↦ rw e (record {
          filename = h.filename;
          fd = h.fd;
          files = h.files;
          sorted = h.sorted;
          values = h.values;
        })
        | inr e ↦ elim (Bool-cases (str_eq key (lit "filename"))) [
          | inl f ↦ elim (Bool-cases (can_open (upload_name dir value))) [
            | inl o ↦
                rw (e, f, o)
                  (record {
                    filename = inr under;
                    fd = (under, tt);
                    files = All-append _ u.files (opened u.fd) h.files h.fd;
                    sorted = h.sorted;
                    values = h.values;
                  })
            | inr o ↦ rw (e, f, o) named
          ]
          | inr f ↦ rw (e, f) h
        ]
      ]

  set_fields-IsUpload :
      (u : Upload) (fs : QStringList)
      → IsUpload dir u
      → IsUpload dir (set_fields qt past dir can_open u fs).0
  unfolding set_fields
  set_fields-IsUpload u [] h = h
  set_fields-IsUpload u (f ∷ fs) h =
      let step = set_field qt past dir can_open u (qt.split f (lit "=")) in
      let one = set_field-IsUpload u (qt.split f (lit "=")) h in
      elim (Bool-cases step.1) [
        | inl e ↦ rw e one
        | inr e ↦ rw e (set_fields-IsUpload step.0 fs one)
      ]

  form_data-IsUpload :
      (u : Upload) (fields : QStringList) (b : Bool)
      → IsUpload dir u
      → IsUpload dir (if b then set_fields qt past dir can_open u (drop 1 fields) else (u, false)).0
  form_data-IsUpload u fields true h = set_fields-IsUpload u (drop 1 fields) h
  form_data-IsUpload u fields false h = h

  pub end_header-IsUpload :
      (u : Upload) → IsUpload dir u → IsUpload dir (end_header qt past dir can_open u).0
  unfolding end_header disposition
  end_header-IsUpload u h = go (find u.headers (lit "content-disposition"))
    where
      go : (value : Option QString) → IsUpload dir (disposition qt past dir can_open u value).0
      go none = IsUpload-in_header dir false u h
      go (some value) =
          let fields = qt.split value (lit ";") in
          IsUpload-in_header dir false _ (
            form_data-IsUpload u fields
              (str_eq (qt.simplified (qt.to_lower (get_or fields 0 []))) (lit "form-data")) h)
