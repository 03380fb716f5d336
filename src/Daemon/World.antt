-- ===== src/Daemon/World.antt =====
-- What the commands of the daemon find on the machine and what they do there. A program that is run
-- is waited for, and what it prints is given.
use webhost.Base.{ℕ, Bool, Option}
use webhost.Qt.{QString, QByteArray, QStringList}

-- The files that can be read, the files that can be written, what a program prints for its
-- arguments, and whether the service process is there and runs.
pub record World : Type 0 where
  pub file : QString → Option QByteArray
  pub is_writable : QString → Bool
  pub output : QString → QStringList → QString
  pub service_exists : Bool
  pub service_runs : Bool
  -- what is read behind the words of a command
  pub past_words : QString

pub data Effect : Type 0 where
  -- a program that is run, and one that is started and not waited for
  run_program start_program : QString → QStringList → Effect
  -- a file that is written beside the one of that name, and then renamed to it
  replace_file : QString → QByteArray → Effect
  create_file delete_file delete_directory : QString → Effect
  -- SIGHUP, SIGTERM and SIGKILL to the service process
  hang_up_service terminate_service kill_service : Effect
  sync_disk : Effect
  exit_daemon : ℕ → Effect
