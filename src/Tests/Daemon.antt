-- ===== src/Tests/Daemon.antt =====
-- The theorem on the daemon's commands at two datagrams, one of them from another host.
use webhost.Base.{ℕ, ◌≡◌, refl, List, [], ◌∷◌, map, arith}
use webhost.Qt.{QString}
use webhost.Daemon.{ready_read_data}
use webhost.Daemon.Framing.{framed, all_processed, ready_read_data-framed}
use webhost.Tests.SampleQt.{sample}

abbrev reboot_text : QString
reboot_text = b'R' ∷ b'e' ∷ []

abbrev sent : List (ℕ × List QString)
sent = (2130706433, reboot_text ∷ reboot_text ∷ []) ∷ (3232235521, reboot_text ∷ []) ∷ []

ready_read_data-framed_example :
    ready_read_data sample (map (λ d. (d.0, framed d.1)) sent) ≡ (all_processed sample sent, [])
ready_read_data-framed_example =
    ready_read_data-framed sample (λ b h. refl) sent
      (
        (
          (λ e. cc),
          omega arith,
          (
            (
              (omega arith, omega arith, omega arith, omega arith),
              ((omega arith, omega arith, omega arith, omega arith), tt),
            ),
            (
              (
                (omega arith, omega arith, omega arith, omega arith),
                ((omega arith, omega arith, omega arith, omega arith), tt),
              ),
              tt,
            ),
          ),
        ),
        (
          (
            (λ e. cc),
            omega arith,
            (
              (
                (omega arith, omega arith, omega arith, omega arith),
                ((omega arith, omega arith, omega arith, omega arith), tt),
              ),
              tt,
            ),
          ),
          tt,
        ),
      )
