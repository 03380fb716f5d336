-- ===== src/Daemon/Client/Upgrade.antt =====
-- The command that installs a package: `sendUpgradeCommand` of src/wh/whcgipost.cpp, which waits for
-- the daemon, and `Upgrade` of src/webhostd/upgrade.cpp.
use webhost.Base.{
  ℕ, zero, suc, ◌+◌, ◌-◌, ◌<◌, ◌≤◌, ◌≡◌, refl, ap, ◌∙◌, ◌⊎◌, inl, inr, Bool, true, false,
  Bool-cases, ◌==◌, List, [], ◌∷◌, ◌++◌, if◌then◌else◌, length, arith, append_assoc,
}
use webhost.Qt.{QString, QByteArray, lit, join, str_eq, Library}
use webhost.Daemon.{upgrade, command_of, ready_read_data}
use webhost.Daemon.World.{
  World, Effect, run_program, sync_disk, create_file, delete_file, delete_directory, kill_service,
  exit_daemon,
}
use webhost.Daemon.System.{directory_of, handle_upgrade}
use webhost.Daemon.Client.{send_command}
use webhost.Daemon.Client.RoundTrip.{CommandLaws, IsWord, is_word-IsWord, send_command-processed}

-- How often the file of completion is looked for, a second apart: until it is there, and at most 31
-- times. `done i` tells whether it is there at the look with number i, from 0.
unfoldable pub polls : ℕ → (ℕ → Bool) → ℕ → ℕ
polls zero done count = count
polls (suc left) done count = if done count then count + 1 else polls left done (count + 1)

module _ (qt : Library) where
  -- The datagram that is sent, the number of looks and what is deleted then.
  unfoldable pub send_upgrade_command : QString → (ℕ → Bool) → (ℕ × QByteArray) × ℕ × List Effect
  send_upgrade_command filename done = (
    send_command qt (lit "UPGRADE " ++ (filename ++ lit "!")),
    polls 31 done 0,
    delete_file filename
        ∷ delete_file (directory_of qt filename ++ lit "/done")
        ∷ delete_directory (directory_of qt filename)
        ∷ [],
  )

-- The looks from `count` on: none but the last finds the file, which may be the last that is left.
abbrev pub Waits : ℕ → (ℕ → Bool) → ℕ → ℕ → Type 0
Waits left done count n =
    (n ≤ count + left)
    × ((i : ℕ) → count ≤ i → i + 1 < n → done i ≡ false)
    × (((count < n) × (done (n - 1) ≡ true)) ⊎ (n ≡ count + left))

polls-Waits :
    (left : ℕ) (done : ℕ → Bool) (count : ℕ) → Waits left done count (polls left done count)
unfolding polls
polls-Waits zero done count = (omega arith, (λ i a b. absurd (omega arith)), inr (omega arith))
polls-Waits (suc left) done count = elim (Bool-cases (done count)) [
  | inl e ↦
      rw e
        (omega arith, (λ i a b. absurd (omega arith)), inl (omega arith, ap done (omega arith) ∙ e))
  | inr e ↦
      let (most, before, last) = polls-Waits left done (count + 1) in
      let n = polls left done (count + 1) in
      let earlier : (i : ℕ) → count ≤ i → i + 1 < n → done i ≡ false = λ i a b.
        elim (Bool-cases (i == count)) [
          | inl same ↦ ap done (ground (arith, same)) ∙ e
          | inr other ↦ before i (ground (arith, other, a)) b
        ] in
      let ends : ((count < n) × (done (n - 1) ≡ true)) ⊎ (n ≡ count + suc left) = elim last [
        | inl (more, found) ↦ inl (omega (arith, more), found)
        | inr all ↦ inr (omega (arith, all))
      ] in
      rw e (omega (arith, most), earlier, ends)
]

module _ (qt : Library) (laws : CommandLaws qt) where
  -- Over a library with the documented laws of ASCII texts and of split, for a file whose name is
  -- ASCII without a space, an end of line or an exclamation mark and of at most 1480 characters:
  -- the daemon processes the upgrade command that a CGI program sends with that name, installs the
  -- package, and deletes what the CGI program deletes; and the CGI program looks for the file of
  -- completion at most 31 times, until it is found, each earlier look having failed.
  pub ready_read_data-send_upgrade_command :
      (w : World) (filename : QString) (done : ℕ → Bool)
      → IsWord filename
      → length filename ≤ 1480
      → let sent = send_upgrade_command qt filename done in
        (ready_read_data qt (sent.0 ∷ []) ≡ (upgrade (lit "UPGRADE" ∷ filename ∷ []) ∷ [], []))
        × (handle_upgrade qt w (lit "UPGRADE" ∷ filename ∷ [])
            ≡ run_program (lit "/bin/rpm") (lit "--oldpackage" ∷ lit "-U" ∷ filename ∷ [])
                ∷ sync_disk
                ∷ create_file (directory_of qt filename ++ lit "/done")
                ∷ sent.2
              ++ ((if w.service_exists then kill_service ∷ [] else []) ++ exit_daemon 0 ∷ []))
        × Waits 31 done 0 sent.1
  unfolding send_upgrade_command handle_upgrade command_of lit join str_eq
  ready_read_data-send_upgrade_command w filename done h bound = (
    ap (λ x. ready_read_data qt (send_command qt x ∷ [])) (simp append_assoc)
        ∙ send_command-processed qt laws (lit "UPGRADE") (filename ∷ [])
            (is_word-IsWord (lit "UPGRADE") refl, (h, tt)) (omega (arith, bound)),
    refl,
    polls-Waits 31 done 0,
  )
