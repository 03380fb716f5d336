-- ===== src/Pages/Choice.antt =====
-- Which page a CGI program prints (src/wh/whcgiapplication.cpp).
use webhost.Base.{
  ◌≡◌, ◌≢◌, refl, ap, ◌⊎◌, inl, inr, true, false, List, [], ◌∷◌, ◌++◌, some, none, All, Bool-cases,
  ℤ, pos, negsuc, arith,
}
use webhost.Qt.{QString, QByteArray, lit, Library}
use webhost.Post.Form.{get_value_int}
use webhost.Post.Request.{CgiPost, destroy}
use webhost.Pages.{
  Page, Output, same_id, get_page, exit_with, render_found, render_choice, render_id, render_data,
}

same_id_eq : (a b : ℤ) → same_id a b ≡ true → a ≡ b
same_id_eq (pos a) (pos b) e = ap pos (ground arith)
same_id_eq (negsuc a) (negsuc b) e = ap negsuc (ground arith)
same_id_eq (pos a) (negsuc b) e = absurd (cc e)
same_id_eq (negsuc a) (pos b) e = absurd (cc e)

same_id_refl : (a : ℤ) → same_id a a ≡ true
same_id_refl (pos a) = ground arith
same_id_refl (negsuc a) = ground arith

-- No page has that number.
abbrev pub NoPage : List Page → ℤ → Type 0
NoPage pages id = All (λ p. p.id ≢ id) pages

-- The first page of that number, in the order of `addPage`.
pub IsFirst : List Page → ℤ → Page → Type 0
IsFirst pages id p =
    (before : List Page) × (after : List Page) × (pages ≡ before ++ p ∷ after)
    × (p.id ≡ id)
    × NoPage before id

get_page-IsFirst :
    (pages : List Page) (id : ℤ)
    → ((p : Page) × (get_page pages id ≡ some p) × IsFirst pages id p)
      ⊎ ((get_page pages id ≡ none) × NoPage pages id)
unfolding get_page IsFirst
get_page-IsFirst [] id = inr (refl, tt)
get_page-IsFirst (q ∷ qs) id = elim (Bool-cases (same_id q.id id)) [
  | inl e ↦ inl (q, rw e refl, ([], qs, refl, same_id_eq q.id id e, tt))
  | inr e ↦
      let other : q.id ≢ id = λ s. cc (e, same_id_refl id, ap (λ i. same_id i id) s) in
      elim (get_page-IsFirst qs id) [
        | inl (p, found, (before, after, split, is_id, none_before)) ↦ inl (
          p,
          rw (e, found) refl,
          (q ∷ before, after, ap (λ l. q ∷ l) split, is_id, (other, none_before)),
        )
        | inr (missing, lacks) ↦ inr (rw (e, missing) refl, (other, lacks))
      ]
]

module _ (qt : Library) where
  -- The number of the page that a request asks for.
  abbrev pub asked : CgiPost → ℤ
  asked post = (get_value_int qt post.post (lit "COMMAND")).0

  -- What `render_id` makes of a number: all but the words of the message.
  Chooses : CgiPost → List Page → QByteArray → ℤ → QString → Output → Type 0
  Chooses post pages printed id verb out =
      ((p : Page) × (IsFirst pages id p ⊎ (NoPage pages id × IsFirst pages (pos 0) p))
        × (out ≡ render_found qt post pages printed id p))
      ⊎ (NoPage pages id
          × NoPage pages (pos 0)
          × (out
              ≡ exit_with qt post printed 500
                  (lit "Unknown page ID " ++ (qt.number id ++ (lit " " ++ verb))) false))

  render_id-Chooses :
      (post : CgiPost) (pages : List Page) (printed : QByteArray) (id : ℤ) (verb : QString)
      → Chooses post pages printed id verb (render_id qt post pages printed id verb)
  unfolding Chooses render_id render_choice
  render_id-Chooses post pages printed id verb = elim (get_page-IsFirst pages id) [
    | inl (p, e, first) ↦ inl (p, inl first, rw e refl)
    | inr (e, lacks) ↦ elim (get_page-IsFirst pages (pos 0)) [
      | inl (p, f, first) ↦ inl (p, inr (lacks, first), rw (e, f) refl)
      | inr (f, no_first) ↦ inr (lacks, no_first, rw (e, f) refl)
    ]
  ]

  Chooses-destroy :
      (post : CgiPost) (pages : List Page) (printed : QByteArray) (id : ℤ) (verb : QString)
      (out : Output)
      → Chooses post pages printed id verb out
      → out.effects ≡ destroy post
  unfolding Chooses render_found exit_with
  Chooses-destroy post pages printed id verb out (inl (p, first, e)) = ap (λ o. o.effects) e
  Chooses-destroy post pages printed id verb out (inr (lacks, no_first, e)) = ap (λ o. o.effects) e

  -- `renderData` always cleans up the request, and either prints the first page of the number that
  -- the request asks for, or, where no page has it, the first page 0, or, where there is none
  -- either, the error 500 that names the number.
  pub render_data-IsFirst :
      (post : CgiPost) (pages : List Page) (printed : QByteArray)
      → ((render_data qt post pages printed).effects ≡ destroy post)
        × (((p : Page) × (IsFirst pages (asked post) p
                ⊎ (NoPage pages (asked post) × IsFirst pages (pos 0) p))
              × (render_data qt post pages printed
                  ≡ render_found qt post pages printed (asked post) p))
            ⊎ (NoPage pages (asked post)
                × NoPage pages (pos 0)
                × (render_data qt post pages printed
                    ≡ exit_with qt post printed 500
                        (lit "Unknown page ID "
                          ++ (qt.number (asked post) ++ (lit " " ++ lit "received")))
                        false)))
  unfolding render_data Chooses
  render_data-IsFirst post pages printed =
      let chosen = render_id-Chooses post pages printed (asked post) (lit "received") in
      (Chooses-destroy post pages printed (asked post) (lit "received") _ chosen, chosen)
