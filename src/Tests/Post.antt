-- ===== src/Tests/Post.antt =====
-- The theorems on requests at concrete texts, forms and environments.
use webhost.Base.{
  ◌++◌, ℕ, ◌+◌, ◌-◌, ◌*◌, ◌<◌, ◌≡◌, Bool, true, false, List, [], ◌∷◌, some, refl, All, length, ◌⊎◌,
  ℤ, pos, arith, ltb, if◌then◌else◌,
}
use webhost.Qt.{lit, QChar, QString, QByteArray, str_eq, Library}
use webhost.Post.{url_decode}
use webhost.Post.RoundTrip.{url_encode, hex_digit, url_decode-url_encode}
use webhost.Stdio.{FileLaws}
use webhost.Maps.{find}
use webhost.Post.Form.{error_ok, error_cannot_save_file, load_url_encoding}
use webhost.Post.Form.RoundTrip.{IsField, form_text, last_value, load_url_encoding-form_text}
use webhost.Post.Multipart.{Upload, load_multipart_encoding}
use webhost.Post.Multipart.Opening.{Opens, Refuses, opened_names}
use webhost.Post.Multipart.Errors.{load_multipart_encoding-error}
use webhost.Post.Request.{Environment, new_post, cgi_post, destroy}
use webhost.Post.Request.Cleanup.{DeletesIn, destroy-cgi_post}
use webhost.Tests.SampleQt.{sample}
use webhost.Tests.SampleFiles.{sample_files}

abbrev hex_value : QChar → ℕ
hex_value c = if ltb c 58 then c - b'0' else c - 55

abbrev hex_number_text : QString → ℤ × Bool
hex_number_text (a ∷ b ∷ []) = (pos (16 * hex_value a + hex_value b), true)
hex_number_text _ = (pos 0, true)

abbrev hex_sample : Library
hex_sample = record sample { to_int_hex = hex_number_text }

hex_value-hex_digit : (n : ℕ) → n < 16 → hex_value (hex_digit n) ≡ n
hex_value-hex_digit n h = ground arith

hex_sample_number :
    (a b : ℕ)
    → a < 16
    → b < 16
    → hex_sample.to_int_hex (hex_digit a ∷ hex_digit b ∷ []) ≡ (pos (16 * a + b), true)
hex_sample_number a b ha hb = rw (hex_value-hex_digit a ha, hex_value-hex_digit b hb)

abbrev sign_text : QString
sign_text = b'a' ∷ b' ' ∷ b'=' ∷ []

url_decode-url_encode_example : url_decode hex_sample (url_encode sign_text) ≡ sign_text
url_decode-url_encode_example =
    url_decode-url_encode hex_sample hex_sample_number sign_text
      (omega arith, (omega arith, (omega arith, tt)))

hex_files : FileLaws hex_sample
hex_files = record {
  ascii_text = sample_files.ascii_text;
  ascii_utf8 = sample_files.ascii_utf8;
  trimmed_line = sample_files.trimmed_line;
  split-join = sample_files.split-join;
}

-- Two fields of one name.
abbrev fields : List (QString × QString)
fields = (b'n' ∷ [], sign_text) ∷ (b'n' ∷ [], b'%' ∷ []) ∷ []

fields-IsField : All IsField fields
fields-IsField = (
  record { name_units = omega arith; latin1 = omega arith },
  (record { name_units = omega arith; latin1 = omega arith }, tt),
)

load_url_encoding-form_text_example :
    (find
        (load_url_encoding hex_sample new_post
          (length (form_text fields))
          (form_text fields)
          []).values
        (b'n' ∷ [])
      ≡ some (b'%' ∷ []))
    × ((load_url_encoding hex_sample new_post
          (length (form_text fields))
          (form_text fields)
          []).error
        ≡ error_ok)
unfolding last_value str_eq
load_url_encoding-form_text_example =
    load_url_encoding-form_text hex_sample hex_files hex_sample_number fields new_post []
      (b'n' ∷ []) fields-IsField

-- A part that uploads a file.
abbrev body : QByteArray
body =
    lit "--b"
    ++ (10 ∷ lit "Content-Disposition: form-data; name=f; filename=/x")
    ++ (10 ∷ 10 ∷ lit "data")
    ++ (10 ∷ lit "--b")
    ++ 10 ∷ []

abbrev no_file : QString → Bool
no_file = λ f. false

abbrev read_body : (QString → Bool) → Upload
read_body can_open = load_multipart_encoding sample [] (b'/' ∷ []) can_open new_post 99 body

load_multipart_encoding-error_example :
    ((read_body no_file ≡ read_body (λ f. true))
      × ((read_body no_file).post.error ≡ error_ok)
      × Opens no_file (opened_names (read_body (λ f. true))))
    ⊎ (((read_body no_file).post.error ≡ error_cannot_save_file)
        × Refuses no_file (opened_names (read_body (λ f. true))) (read_body no_file).filename)
load_multipart_encoding-error_example =
    load_multipart_encoding-error sample [] (b'/' ∷ []) no_file new_post 99 body

-- The sample library reads the length of a text as its number.
abbrev environment : Environment
environment =
    λ name. some (if str_eq name (lit "CONTENT_TYPE") then lit "multipart/form-data" else body)

abbrev any_file : QString → Bool
any_file = λ f. true

destroy-cgi_post_example :
    All
      (DeletesIn (b'/' ∷ []))
      (destroy (cgi_post sample [] any_file true (λ t. some (b'/' ∷ [])) environment body []))
destroy-cgi_post_example =
    destroy-cgi_post sample [] any_file true (λ t. some (b'/' ∷ [])) environment body [] (b'/' ∷ [])
      refl (omega arith, tt)
