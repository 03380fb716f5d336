-- ===== src/Users/File/RoundTrip.antt =====
-- Saving the users and loading the file.
use webhost.Base.{
  ℕ, suc, ◌+◌, ◌<◌, ◌≡◌, refl, sym, ap, ◌∙◌, true, List, [], ◌∷◌, ◌++◌, some, arith, All,
  All-append, All-append_left, All-append_right, append_assoc, append-nil, ap₂, length, map,
}
use mathlib.Core.List.{map-append}
use native.Mathlib.Numerals.{add-one}
use webhost.Qt.{QString, QStringList, Library, written, IsLine, TextLaws}
use webhost.Profile.{ProfileSection, new_section, read_all_lines, set_source}
use webhost.Profile.Lines.{read_line-blank}
use webhost.Users.{User, UserMap}
use webhost.Users.Table.{IsTable}
use webhost.Users.File.{load_users, save_realm, save_map, save_users, print_user}
use webhost.Users.File.Lines.{
  Entry, IsEntry, entry_lines, entry_section, read_all_lines-entry, trimmed-entry,
}
use webhost.Users.File.Printing.{entry_lines-IsLine, empty-IsLine, print_user-written}
use webhost.Users.File.Reading.{
  load_loop-entries_from, numbered, entries_from-numbered, unnamed_before,
}
use webhost.Users.File.Rebuild.{realm_entries, entries, HasUsers, add_entries-entries}

module _ (qt : Library) where
  -- The lines of a saved file: a blank line stands behind each entry.
  abbrev saved_lines : ℕ → List Entry → QStringList
  saved_lines i [] = []
  saved_lines i (e ∷ es) = entry_lines qt i e ++ ([] ∷ saved_lines (suc i) es)

  module _ (laws : TextLaws qt) where
    save_realm-written :
        (us : List User) (k : QString) (i : ℕ) (ls : QStringList)
        → All (IsEntry qt) (realm_entries k us)
        → (save_realm qt k us i).0 ++ written qt ls
          ≡ written qt (saved_lines i (realm_entries k us) ++ ls)
    unfolding save_realm
    save_realm-written [] k i ls h = refl
    save_realm-written (u ∷ us) k i ls h =
        let e : Entry = record { realm = k; name = u.name; password = u.password } in
        let more = saved_lines (suc i) (realm_entries k us) ++ ls in
        rw
          (
            append_assoc (print_user qt i k u.name u.password) (10 ∷ (save_realm qt k us (i + 1)).0)
                (written qt ls),
            add-one,
            save_realm-written us k (suc i) ls h.1,
          )
          (ap (λ x. print_user qt i k u.name u.password ++ (x ++ (10 ∷ written qt more)))
              (sym laws.empty_utf8)
            ∙ print_user-written qt laws i e ([] ∷ more) h.0)

    save_realm-count :
        (us : List User) (k : QString) (i : ℕ) → (save_realm qt k us i).1 ≡ i + length us
    unfolding save_realm
    save_realm-count [] k i = omega arith
    save_realm-count (u ∷ us) k i = omega (arith, save_realm-count us k (i + 1))

    saved_lines-append :
        (xs ys : List Entry) (i : ℕ)
        → saved_lines i (xs ++ ys) ≡ saved_lines i xs ++ saved_lines (i + length xs) ys
    saved_lines-append [] ys i = ap (λ n. saved_lines n ys) (omega arith)
    saved_lines-append (x ∷ xs) ys i =
        ap (λ t. entry_lines qt i x ++ ([] ∷ t))
          (saved_lines-append xs ys (suc i)
            ∙ ap (λ n. saved_lines (suc i) xs ++ saved_lines n ys) (omega arith))

    length-realm_entries : (k : QString) (us : List User) → length (realm_entries k us) ≡ length us
    length-realm_entries k [] = refl
    length-realm_entries k (u ∷ us) = ap suc (length-realm_entries k us)

    save_map-written :
        (m : UserMap) (i : ℕ)
        → All (IsEntry qt) (entries m)
        → save_map qt m i ≡ written qt (saved_lines i (entries m))
    unfolding save_map
    save_map-written [] i h = refl
    save_map-written ((k, us) ∷ m) i h =
        let es = realm_entries k us in
        let n = (save_realm qt k us i).1 in
        let counted : n ≡ i + length es =
          omega (arith, save_realm-count us k i, length-realm_entries k us) in
        ap (λ t. (save_realm qt k us i).0 ++ t)
          (save_map-written m n (All-append_right (IsEntry qt) es (entries m) h))
        ∙ save_realm-written us k i (saved_lines n (entries m))
            (All-append_left (IsEntry qt) es (entries m) h)
        ∙ ap (λ c. written qt (saved_lines i es ++ saved_lines c (entries m))) counted
        ∙ ap (written qt) (sym (saved_lines-append es (entries m) i))

    saved_lines-IsLine :
        (es : List Entry) (i : ℕ) → All (IsEntry qt) es → All (IsLine qt) (saved_lines i es)
    saved_lines-IsLine [] i h = tt
    saved_lines-IsLine (e ∷ es) i h =
        All-append (IsLine qt) (entry_lines qt i e) ([] ∷ saved_lines (suc i) es)
          (entry_lines-IsLine qt laws i e h.0)
          (empty-IsLine qt laws, saved_lines-IsLine es (suc i) h.1)

    trimmed_empty : qt.trimmed [] ≡ []
    trimmed_empty = laws.trimmed_tight [] (record { starts = tt; ends = tt })

    read_saved_lines :
        (es : List Entry) (secs : List ProfileSection) (i : ℕ)
        → All (IsEntry qt) es
        → read_all_lines qt secs (map qt.trimmed (saved_lines i es)) ≡ secs ++ numbered qt i es
    unfolding read_all_lines
    read_saved_lines [] secs i h = sym (append-nil secs)
    read_saved_lines (e ∷ es) secs i h =
        let more = map qt.trimmed (saved_lines (suc i) es) in
        let next = secs ++ entry_section qt i e ∷ [] in
        ap (read_all_lines qt secs) (
          map-append qt.trimmed (entry_lines qt i e) ([] ∷ saved_lines (suc i) es)
          ∙ ap₂ (λ a b. a ++ (b ∷ more)) (trimmed-entry qt laws i e h.0) trimmed_empty)
        ∙ read_all_lines-entry qt laws secs i e ([] ∷ more) h.0
        ∙ ap (λ x. read_all_lines qt x more) (read_line-blank qt next)
        ∙ read_saved_lines es next (suc i) h.1
        ∙ append_assoc secs (entry_section qt i e ∷ []) (numbered qt (suc i) es)

    pub length-numbered : (es : List Entry) (i : ℕ) → length (numbered qt i es) ≡ length es
    length-numbered [] i = refl
    length-numbered (e ∷ es) i = ap suc (length-numbered es (suc i))

    -- Over a library with the documented laws of texts, in a UTF-8 locale, loading the file that
    -- `saveUsers` wrote gives the users back, whatever they were before, and reports success: if
    -- the realms are sorted, the names of a realm are distinct, every realm has a user, and every
    -- text can stand on a line of its own with no white space at its ends. The loop's fuel
    -- suffices.
    pub load_users-save_users :
        (filename : QString) (m before : UserMap)
        → IsTable m
        → HasUsers m
        → All (IsEntry qt) (entries m)
        → load_users qt filename (some (save_users qt m)) before ≡ (some m, true)
    unfolding load_users set_source
    load_users-save_users filename m before t h es =
        let top = new_section [] ∷ [] in
        let text = save_map-written m 0 es in
        let lines =
          ap qt.read_lines text ∙ laws.read_lines-written _ (saved_lines-IsLine (entries m) 0 es) in
        let secs =
          ap (λ ls. read_all_lines qt top (map qt.trimmed ls)) lines
          ∙ read_saved_lines (entries m) top 0 es in
        let es' = entries m in
        let size : length es' < suc (length (top ++ numbered qt 0 es')) =
          omega (arith, length-numbered es' 0) in
        rw (
          secs,
          load_loop-entries_from qt,
          entries_from-numbered qt laws es' top 0 (suc (length (top ++ numbered qt 0 es'))) filename
              (unnamed_before qt) size,
          add_entries-entries m t h,
        )
