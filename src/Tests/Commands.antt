-- ===== src/Tests/Commands.antt =====
-- The theorem on the commands that clients send, at concrete words.
use webhost.Base.{ℕ, Bool, true, none, ◌==◌, ◌≡◌, refl, [], ◌∷◌, ◌++◌, if◌then◌else◌, arith}
use webhost.Qt.{QString, lit}
use webhost.Daemon.{add_user, add_user2, delete_user, delete_user2, upgrade, ready_read_data}
use webhost.Daemon.World.{World, run_program, sync_disk, create_file, kill_service, exit_daemon}
use webhost.Daemon.System.{directory_of, handle_upgrade}
use webhost.Daemon.Client.Upgrade.{
  send_upgrade_command, Waits, ready_read_data-send_upgrade_command,
}
use webhost.Daemon.Client.{
  send_add_user_command, send_add_user2_command, send_delete_user_command,
  send_delete_user2_command,
}
use webhost.Daemon.Client.RoundTrip.{
  CommandLaws, is_word-IsWord, ready_read_data-send_user_commands,
}
use webhost.Tests.SampleQt.{sample, split_text, to_lower_char}
use webhost.Tests.SampleFiles.{cut-join}

sample_commands : CommandLaws sample
unfolding split_text to_lower_char lit
sample_commands = record {
  ascii_unit = λ b h. refl;
  ascii_utf8 = λ s h. refl;
  ascii_lower = λ s h. refl;
  split-join = cut-join b' ';
}

abbrev file : QString
file = b'/' ∷ b'u' ∷ []

abbrev realm : QString
realm = b'r' ∷ []

abbrev name : QString
name = b'n' ∷ b'o' ∷ []

abbrev passwd : QString
passwd = b'p' ∷ b'#' ∷ []

ready_read_data-send_user_commands_example :
    (ready_read_data sample (send_add_user_command sample file name passwd ∷ [])
      ≡ (add_user (lit "ADDUSER" ∷ file ∷ name ∷ passwd ∷ []) ∷ [], []))
    × (ready_read_data sample (send_add_user2_command sample file realm name passwd ∷ [])
        ≡ (add_user2 (lit "ADDUSER2" ∷ file ∷ realm ∷ name ∷ passwd ∷ []) ∷ [], []))
    × (ready_read_data sample (send_delete_user_command sample file name ∷ [])
        ≡ (delete_user (lit "DELETEUSER" ∷ file ∷ name ∷ []) ∷ [], []))
    × (ready_read_data sample (send_delete_user2_command sample file realm name ∷ [])
        ≡ (delete_user2 (lit "DELETEUSER2" ∷ file ∷ realm ∷ name ∷ []) ∷ [], []))
ready_read_data-send_user_commands_example =
    ready_read_data-send_user_commands sample sample_commands file realm name passwd
      (
        is_word-IsWord file refl,
        is_word-IsWord realm refl,
        is_word-IsWord name refl,
        is_word-IsWord passwd refl,
      )
      (omega arith)

abbrev machine : World
machine = record {
  file = λ name. none;
  is_writable = λ name. true;
  output = λ program args. [];
  service_exists = true;
  service_runs = true;
  past_words = [];
}

-- The file of completion is there at the third look.
abbrev third : ℕ → Bool
third i = i == 2

ready_read_data-send_upgrade_command_example :
    (ready_read_data sample ((send_upgrade_command sample file third).0 ∷ [])
      ≡ (upgrade (lit "UPGRADE" ∷ file ∷ []) ∷ [], []))
    × (handle_upgrade sample machine (lit "UPGRADE" ∷ file ∷ [])
        ≡ run_program (lit "/bin/rpm") (lit "--oldpackage" ∷ lit "-U" ∷ file ∷ [])
            ∷ sync_disk
            ∷ create_file (directory_of sample file ++ lit "/done")
            ∷ (send_upgrade_command sample file third).2
          ++ ((if machine.service_exists then kill_service ∷ [] else []) ++ exit_daemon 0 ∷ []))
    × Waits 31 third 0 (send_upgrade_command sample file third).1
ready_read_data-send_upgrade_command_example =
    ready_read_data-send_upgrade_command sample sample_commands machine file third
      (is_word-IsWord file refl) (omega arith)
