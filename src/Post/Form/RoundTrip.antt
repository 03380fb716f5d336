-- ===== src/Post/Form/RoundTrip.antt =====
-- A form that a browser encodes is read as its fields (`LoadUrlEncoding` of src/wh/whcgipost.cpp).
use webhost.Base.{
  ℕ, ◌+◌, ◌*◌, ◌/◌, ◌%◌, ◌<◌, ◌≡◌, ◌≢◌, refl, sym, ap, ◌∙◌, true, List, [], ◌∷◌, ◌++◌, Option, none,
  some, if◌then◌else◌, All, All-append, map, length, take-all, take-length_append, pos, arith,
  subst, Bool-cases, Option-cases, inl, inr, ◌==◌,
}
use webhost.Qt.{QChar, QString, QByteArray, lit, join, str_eq, Lacks, Library}
use webhost.Stdio.{FileLaws, IsPlain, line_text, line_text-IsPlain}
use webhost.Maps.{find, find-put}
use webhost.Post.RoundTrip.{url_encode, hex_digit, is_alphanumeric, url_decode-url_encode}
use webhost.Post.Form.{Post, error_ok, load_field, load_fields, load_url_encoding}

-- A unit that neither a field nor a line takes for its own.
abbrev IsFieldUnit : QChar → Type 0
IsFieldUnit c = (c < 128) × (c ≢ 0) × (c ≢ b'=') × (c ≢ b'&')

-- The name of a field is taken as it is, its value is encoded.
pub record IsField (f : QString × QString) : Type 0 where
  pub name_units : All IsFieldUnit f.0
  pub latin1 : All (λ c. c < 256) f.1

hex_digit-IsFieldUnit : (n : ℕ) → n < 16 → IsFieldUnit (hex_digit n)
hex_digit-IsFieldUnit n h =
    (ground arith, (λ e. ground arith), (λ e. ground arith), λ e. ground arith)

url_encode-All : (s : QString) → All (λ c. c < 256) s → All IsFieldUnit (url_encode s)
url_encode-All [] h = tt
url_encode-All (c ∷ s) h = elim (Bool-cases (is_alphanumeric c)) [
  | inl e ↦ rw e (
    (ground (arith, e), (λ z. ground (arith, e)), (λ z. ground (arith, e)), λ z. ground (arith, e)),
    url_encode-All s h.1,
  )
  | inr e ↦ elim (Bool-cases (c == b' ')) [
    | inl f ↦ rw (e, f) (omega arith, url_encode-All s h.1)
    | inr f ↦
        rw (e, f)
          (
            omega arith,
            (
              hex_digit-IsFieldUnit (c / 16) (omega (arith, h.0)),
              (hex_digit-IsFieldUnit (c % 16) (omega arith), url_encode-All s h.1),
            ),
          )
  ]
]

-- The text of a form: the fields in order.
abbrev pub field_text : QString × QString → QString
field_text (name, value) = name ++ (b'=' ∷ url_encode value)

pub form_text : List (QString × QString) → QString
form_text fs = join (map field_text fs) (lit "&")

-- The value of the last field of that name.
unfoldable pub last_value : List (QString × QString) → QString → Option QString
last_value [] n = none
last_value ((name, value) ∷ fs) n = elim (last_value fs n) [
  | none ↦ if str_eq name n then some value else none
  | some v ↦ some v
]

-- A unit inside a field of the form.
abbrev IsInner : QChar → Type 0
IsInner c = (c < 128) × (c ≢ 0) × (c ≢ b'&')

units-IsInner : (s : QString) → All IsFieldUnit s → All IsInner s
units-IsInner [] h = tt
units-IsInner (c ∷ s) h = ((h.0.0, h.0.1, h.0.3), units-IsInner s h.1)

inner-IsPlain : (s : QString) → All IsInner s → IsPlain s
inner-IsPlain [] h = tt
inner-IsPlain (c ∷ s) h = ((h.0.0, h.0.1), inner-IsPlain s h.1)

inner-Lacks : (s : QString) → All IsInner s → Lacks b'&' s
inner-Lacks [] h = tt
inner-Lacks (c ∷ s) h = (h.0.2, inner-Lacks s h.1)

units-Lacks : (s : QString) → All IsFieldUnit s → Lacks b'=' s
units-Lacks [] h = tt
units-Lacks (c ∷ s) h = (h.0.2, units-Lacks s h.1)

field_text-IsInner : (f : QString × QString) → IsField f → All IsInner (field_text f)
field_text-IsInner f h =
    All-append IsInner f.0 _ (units-IsInner f.0 h.name_units)
      (omega arith, units-IsInner (url_encode f.1) (url_encode-All f.1 h.latin1))

fields-Lacks :
    (fs : List (QString × QString)) → All IsField fs → All (Lacks b'&') (map field_text fs)
fields-Lacks [] h = tt
fields-Lacks (f ∷ fs) h =
    (inner-Lacks (field_text f) (field_text-IsInner f h.0), fields-Lacks fs h.1)

form_text-IsPlain : (fs : List (QString × QString)) → All IsField fs → IsPlain (form_text fs)
unfolding form_text join lit
form_text-IsPlain [] h = tt
form_text-IsPlain (f ∷ []) h = inner-IsPlain (field_text f) (field_text-IsInner f h.0)
form_text-IsPlain (f ∷ g ∷ fs) h =
    All-append _ (field_text f) _ (inner-IsPlain (field_text f) (field_text-IsInner f h.0))
      (omega arith, form_text-IsPlain (g ∷ fs) h.1)

form_text-some :
    (f : QString × QString) (fs : List (QString × QString))
    → (c : QChar) × (s : QString) × (form_text (f ∷ fs) ≡ c ∷ s)
unfolding form_text join
form_text-some ([], v) [] = (_, _, refl)
form_text-some (x ∷ n, v) [] = (_, _, refl)
form_text-some ([], v) (g ∷ fs) = (_, _, refl)
form_text-some (x ∷ n, v) (g ∷ fs) = (_, _, refl)

module _ (qt : Library) (laws : FileLaws qt)
    (hex_number : (a b : ℕ)
      → a < 16
      → b < 16
      → qt.to_int_hex (hex_digit a ∷ hex_digit b ∷ []) ≡ (pos (16 * a + b), true)) where
  field-split :
      (f : QString × QString)
      → IsField f
      → qt.split (field_text f) (lit "=") ≡ f.0 ∷ url_encode f.1 ∷ []
  unfolding lit join
  field-split f h = laws.split-join b'=' f.0 (url_encode f.1 ∷ []) (
    units-Lacks f.0 h.name_units,
    (units-Lacks (url_encode f.1) (url_encode-All f.1 h.latin1), tt),
  )

  load_field-find :
      (p : Post) (f : QString × QString) (n : QString)
      → IsField f
      → find (load_field qt p (qt.split (field_text f) (lit "="))).values n
        ≡ (if str_eq f.0 n then some f.1 else find p.values n)
  unfolding load_field
  load_field-find p f n h =
      rw (field-split f h, url_decode-url_encode qt hex_number f.1 h.latin1)
        (find-put p.values f.0 n f.1)

  load_fields-find :
      (fs : List (QString × QString)) (p : Post) (n : QString)
      → All IsField fs
      → find (load_fields qt p (map field_text fs)).values n
        ≡ elim (last_value fs n) [ none ↦ find p.values n | some v ↦ some v ]
  unfolding load_fields last_value
  load_fields-find [] p n h = refl
  load_fields-find (f ∷ fs) p n h =
      load_fields-find fs (load_field qt p (qt.split (field_text f) (lit "="))) n h.1
      ∙ elim (Option-cases (last_value fs n)) [
        | inl e ↦
            rw (e, load_field-find p f n h.0)
              (elim (Bool-cases (str_eq f.0 n)) [ inl same ↦ rw same | inr other ↦ rw other ])
        | inr (v, e) ↦ rw e
      ]

  load_some :
      (p : Post) (c : QChar) (s : QString) (behind : QByteArray)
      → load_url_encoding qt p (length (c ∷ s)) (c ∷ s) behind
        ≡ record (load_fields qt p (qt.split (line_text qt (c ∷ s)) (lit "&"))) { error = error_ok }
  unfolding load_url_encoding
  load_some p c s behind = rw (take-all (length s) s (omega arith), take-length_append s behind)

  fields-split :
      (f : QString × QString) (fs : List (QString × QString))
      → All IsField (f ∷ fs)
      → qt.split (line_text qt (form_text (f ∷ fs))) (lit "&") ≡ map field_text (f ∷ fs)
  unfolding form_text lit
  fields-split f fs h =
      ap (λ t. qt.split t (b'&' ∷ []))
        (line_text-IsPlain qt laws (form_text (f ∷ fs)) (form_text-IsPlain (f ∷ fs) h))
      ∙ laws.split-join b'&' (field_text f) (map field_text fs) (fields-Lacks (f ∷ fs) h)

  load_fields-form_text :
      (f : QString × QString) (fs : List (QString × QString)) (p : Post) (behind : QByteArray)
      → All IsField (f ∷ fs)
      → load_url_encoding qt p (length (form_text (f ∷ fs))) (form_text (f ∷ fs)) behind
        ≡ record (load_fields qt p (map field_text (f ∷ fs))) { error = error_ok }
  load_fields-form_text f fs p behind h =
      let (c, s, e) = form_text-some f fs in
      subst
        (λ t.
          load_url_encoding qt p (length t) t behind
          ≡ record (load_fields qt p (qt.split (line_text qt t) (lit "&"))) { error = error_ok })
        (sym e) (load_some p c s behind)
      ∙ ap (λ ls. record (load_fields qt p ls) { error = error_ok }) (fields-split f fs h)

  -- Over a library with the documented laws of ASCII texts, of split and of hexadecimal numbers: a
  -- form whose names are ASCII without NUL, `=` and `&`, and whose values are Latin-1, is read
  -- without an error, and each name then has the value of the last field of that name, or what it
  -- had before if there is none.
  pub load_url_encoding-form_text :
      (fs : List (QString × QString)) (p : Post) (behind : QByteArray) (n : QString)
      → All IsField fs
      → (find (load_url_encoding qt p (length (form_text fs)) (form_text fs) behind).values n
          ≡ elim (last_value fs n) [ none ↦ find p.values n | some v ↦ some v ])
        × ((load_url_encoding qt p (length (form_text fs)) (form_text fs) behind).error ≡ error_ok)
  unfolding load_url_encoding form_text join last_value
  load_url_encoding-form_text [] p behind n h = (refl, refl)
  load_url_encoding-form_text (f ∷ fs) p behind n h = (
    ap (λ q. find q.values n) (load_fields-form_text f fs p behind h)
        ∙ load_fields-find (f ∷ fs) p n h,
    refl,
  )
