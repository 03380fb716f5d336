-- ===== src/Post/Multipart/Opening.antt =====
-- The files that the parts of a request open (src/wh/whcgipost.cpp), in their order, and the first of
-- them that cannot be opened.
use webhost.Base.{
  ◌≡◌, refl, sym, ap, ◌∙◌, ◌⊎◌, inl, inr, Bool, true, false, List, [], ◌∷◌, ◌++◌, Option, some,
  none, map, All, All-append, append_assoc, append-nil, if◌then◌else◌,
}
use webhost.Qt.{QString, QByteArray, QStringList}
use webhost.Post.Multipart.{Upload, opened, cut_end, write_file, end_part}

abbrev pub first_names : List (QString × QByteArray) → QStringList
first_names fs = map (λ f. f.0) fs

-- The files that were opened, in their order.
abbrev pub opened_names : Upload → QStringList
opened_names u = map (λ f. f.0) u.files ++ map (λ f. f.0) (opened u.fd)

pub first_names-append :
    (fs gs : List (QString × QByteArray))
    → first_names (fs ++ gs) ≡ first_names fs ++ first_names gs
first_names-append [] gs = refl
first_names-append (f ∷ fs) gs = ap (◌∷◌ f.0) (first_names-append fs gs)

pub end_part-opened_names : (u : Upload) → opened_names (end_part u) ≡ opened_names u
unfolding end_part
end_part-opened_names u =
    append-nil (first_names _)
    ∙ first_names-append u.files _
    ∙ ap (λ l. first_names u.files ++ l) (closed u.fd)
  where
    closed :
        (fd : Option (QString × QByteArray))
        → first_names (elim fd [ none ↦ [] | some x ↦ (x.0, cut_end x.1) ∷ [] ])
          ≡ first_names (opened fd)
    closed none = refl
    closed (some x) = refl

pub written-opened :
    (fd : Option (QString × QByteArray)) (line : QByteArray) (stays : Bool)
    → first_names (opened (if stays then fd else write_file fd line)) ≡ first_names (opened fd)
written-opened none line true = refl
written-opened none line false = refl
written-opened (some x) line true = refl
written-opened (some x) line false = refl

module _ (can_open : QString → Bool) where
  abbrev pub Opens : QStringList → Type 0
  Opens = All (λ f. can_open f ≡ true)

  -- The name is the first of the list that cannot be opened.
  abbrev pub Refuses : QStringList → QString → Type 0
  Refuses names f =
      (before : QStringList) × (after : QStringList) × (names ≡ before ++ f ∷ after)
      × Opens before
      × (can_open f ≡ false)

  -- A step of the code, and the same step where every file can be opened: they agree if what the
  -- latter opens can be opened, and else the former fails at the first name that cannot.
  abbrev pub Follows : Upload → Upload × Bool → Upload × Bool → Type 0
  Follows u a t =
      (more : QStringList) × (opened_names t.0 ≡ opened_names u ++ more)
      × (t.1 ≡ false)
      × (((a ≡ t) × Opens more) ⊎ ((a.1 ≡ true) × Refuses more a.0.filename))

  pub Follows-same :
      (u v : Upload) → opened_names v ≡ opened_names u → Follows u (v, false) (v, false)
  Follows-same u v e = ([], e ∙ sym (append-nil (opened_names u)), refl, inl (refl, tt))

  pub Refuses-before :
      (more names : QStringList) (f : QString)
      → Opens more
      → Refuses names f
      → Refuses (more ++ names) f
  Refuses-before more names f o (before, after, e, ob, refused) = (
    more ++ before,
    after,
    ap (λ l. more ++ l) e ∙ sym (append_assoc more before (f ∷ after)),
    All-append (λ g. can_open g ≡ true) more before o ob,
    refused,
  )

  pub Refuses-behind :
      (names more : QStringList) (f : QString) → Refuses names f → Refuses (names ++ more) f
  Refuses-behind names more f (before, after, e, ob, refused) = (
    before,
    after ++ more,
    ap (λ l. l ++ more) e ∙ append_assoc before (f ∷ after) more,
    ob,
    refused,
  )

  -- One step behind another, which is left out where the first fails.
  pub Follows-then :
      (u : Upload) (a t : Upload × Bool) (f g : Upload → Upload × Bool)
      → Follows u a t
      → Follows t.0 (f t.0) (g t.0)
      → Follows u (if a.1 then (a.0, true) else f a.0) (if t.1 then (t.0, true) else g t.0)
  Follows-then u a t f g (more, e, fine, inl (same, o)) (more2, e2, fine2, next) =
      rw (same, fine)
        (
          more ++ more2,
          e2 ∙ ap (λ l. l ++ more2) e ∙ append_assoc (opened_names u) more more2,
          fine2,
          elim next [
            | inl (same2, o2) ↦ inl (same2, All-append (λ g. can_open g ≡ true) more more2 o o2)
            | inr (failed, r) ↦ inr (failed, Refuses-before more more2 _ o r)
          ],
        )
  Follows-then u a t f g (more, e, fine, inr (failed, r)) (more2, e2, fine2, next) =
      rw (failed, fine)
        (
          more ++ more2,
          e2 ∙ ap (λ l. l ++ more2) e ∙ append_assoc (opened_names u) more more2,
          fine2,
          inr (refl, Refuses-behind more more2 _ r),
        )
