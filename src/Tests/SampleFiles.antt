-- ===== src/Tests/SampleFiles.antt =====
-- The laws of files and of split for the concrete library.
use webhost.Base.{◌≡◌, refl, ap, ◌∙◌, [], ◌∷◌, ◌++◌, All, append_assoc, append-nil, arith}
use webhost.Qt.{QString, QStringList, QChar, join, Lacks, StartsTight, EndsTight}
use webhost.Stdio.{FileLaws}
use webhost.Tests.SampleQt.{sample, split_text, cut, trim, trim_left, trim_right, is_blank}

cut-last : (sep : QChar) (cur w : QString) → Lacks sep w → cut sep cur w ≡ (cur ++ w) ∷ []
unfolding cut
cut-last sep cur [] h = rw append-nil
cut-last sep cur (x ∷ w) h =
    ground (arith, cut-last sep (cur ++ x ∷ []) w h.1, append_assoc cur (x ∷ []) w)

cut-word :
    (sep : QChar) (cur w rest : QString)
    → Lacks sep w
    → cut sep cur (w ++ sep ∷ rest) ≡ (cur ++ w) ∷ cut sep [] rest
unfolding cut
cut-word sep cur [] rest h = ground (arith, append-nil cur)
cut-word sep cur (x ∷ w) rest h =
    ground (arith, cut-word sep (cur ++ x ∷ []) w rest h.1, append_assoc cur (x ∷ []) w)

pub cut-join :
    (sep : QChar) (w : QString) (ws : QStringList)
    → All (Lacks sep) (w ∷ ws)
    → cut sep [] (join (w ∷ ws) (sep ∷ [])) ≡ w ∷ ws
unfolding join
cut-join sep w [] h = cut-last sep [] w h.0
cut-join sep w (v ∷ ws) h =
    cut-word sep [] w (join (v ∷ ws) (sep ∷ [])) h.0 ∙ ap (◌∷◌ w) (cut-join sep v ws h.1)

trim_right-line : (s : QString) → EndsTight is_blank s → trim_right (s ++ 10 ∷ []) ≡ s
unfolding trim_right
trim_right-line [] h = refl
trim_right-line (x ∷ []) h = rw h
trim_right-line (x ∷ y ∷ s) h = rw (trim_right-line (y ∷ s) h, trim_right)

trim_left-line :
    (s : QString)
    → StartsTight is_blank s
    → EndsTight is_blank s
    → trim_right (trim_left (s ++ 10 ∷ [])) ≡ s
unfolding trim_left trim_right
trim_left-line [] h k = refl
trim_left-line (x ∷ s) h k = rw h (trim_right-line (x ∷ s) k)

pub sample_files : FileLaws sample
unfolding split_text trim
sample_files = record {
  ascii_text = λ s h. refl;
  ascii_utf8 = λ s h. refl;
  trimmed_line = λ s h. trim_left-line s h.starts h.ends;
  split-join = cut-join;
}
