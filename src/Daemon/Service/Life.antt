-- ===== src/Daemon/Service/Life.antt =====
-- What holds of the service process (src/webhostd/webhostd.cpp, src/webhostd/restart.cpp) whatever
-- happens, and in which order.
use webhost.Base.{
  ℕ, true, false, ◌≡◌, refl, ◌⊎◌, inl, inr, ◌∙◌, List, [], ◌∷◌, Option, none, some, ℤ, pos, get_or,
  drop, ap, Bool-cases, subst,
}
use webhost.Qt.{lit, is_empty, Library}
use webhost.Config.{Config}
use webhost.Daemon.World.{Effect, start_program, terminate_service, kill_service}
use webhost.Daemon.Service.{
  Process, starting, running, finished, failed, Service, service_finished_data, handle_restart,
  kill_timer_data, garbage_timer_data, Step, garbage_timeout, kill_timeout, process_started,
  process_failed, process_finished, restart_command, Reachable, reached_new, reached_step,
}

-- The garbage timer runs before the first start and while an ended process waits, and only then.
abbrev Form : Config → Option Process → Option ℤ → Type 0
Form c none g = (g ≡ some (pos 0)) ⊎ ((g ≡ none) × (is_empty c.service_command ≡ true))
Form c (some starting) g = (g ≡ none) × (is_empty c.service_command ≡ false)
Form c (some running) g = (g ≡ none) × (is_empty c.service_command ≡ false)
Form c (some finished) g = (g ≡ some c.service_respawn_delay) × (is_empty c.service_command ≡ false)
Form c (some failed) g = (g ≡ none) × (is_empty c.service_command ≡ false)

pub IsSound : Config → Service → Type 0
IsSound c s = Form c s.process s.garbage_timer

-- No program is started.
abbrev pub StartsNothing : List Effect → Type 0
StartsNothing [] = Unit
StartsNothing (start_program p a ∷ es) = ⊥
StartsNothing (_ ∷ es) = StartsNothing es

restart-IsSound :
    (c : Config) (s : Service) (p : Option Process)
    → s.process ≡ p
    → IsSound c s
    → IsSound c (handle_restart s).0
unfolding handle_restart IsSound
restart-IsSound c s none e h = rw e (rw e at h)
restart-IsSound c s (some p) e h = rw e (rw e at h)

module _ (qt : Library) where
  garbage-IsSound :
      (c : Config) (s : Service) → s.garbage_timer ≡ none → IsSound c (garbage_timer_data qt c s).0
  unfolding garbage_timer_data IsSound
  garbage-IsSound c s g = elim (Bool-cases (is_empty c.service_command)) [
    | inl e ↦ rw e (inr (g, e))
    | inr e ↦ rw e (g, e)
  ]

  Step-IsSound :
      (c : Config) (s t : Service) (es : List Effect) → Step qt c s t es → IsSound c s → IsSound c t
  unfolding service_finished_data IsSound
  Step-IsSound c s _ _ (garbage_timeout d e) h =
      garbage-IsSound c (record s { garbage_timer = none }) refl
  Step-IsSound c s _ _ (kill_timeout d e) h = h
  Step-IsSound c s _ _ (process_started e) h = rw e at h
  Step-IsSound c s _ _ (process_failed e) h = rw e at h
  Step-IsSound c s _ _ (process_finished e) h = (refl, (rw e at h).1)
  Step-IsSound c s _ _ restart_command h = restart-IsSound c s s.process refl h

  -- In every state that the daemon can reach, the garbage timer runs exactly where it must: with the
  -- respawn delay while an ended process waits for its successor; not while one starts or runs, nor
  -- after one could not be started; and while there is no process it waits for the first start, or no
  -- service command is configured.
  pub Reachable-IsSound : (c : Config) (s : Service) → Reachable qt c s → IsSound c s
  unfolding IsSound
  Reachable-IsSound c _ reached_new = inl refl
  Reachable-IsSound c _ (reached_step s t es r st) =
      Step-IsSound c s t es st (Reachable-IsSound c s r)

  abbrev pub started : Config → Effect
  started c =
      start_program (get_or (qt.split c.service_command (lit " ")) 0 [])
        (drop 1 (qt.split c.service_command (lit " ")))

  -- With a command, the garbage timer starts it.
  garbage-Step :
      (c : Config) (s : Service) (d : ℕ)
      → s.garbage_timer ≡ some (pos d)
      → is_empty c.service_command ≡ false
      → Step qt c s (record s { garbage_timer = none; process = some starting }) (started c ∷ [])
  unfolding garbage_timer_data
  garbage-Step c s d timer e =
      let fired : Service = record s { garbage_timer = none } in
      let starts : garbage_timer_data qt c fired
          ≡ (record fired { process = some starting }, started c ∷ []) =
        rw e in
      subst (λ x. Step qt c s x.0 x.1) starts (garbage_timeout d timer)

  -- In every state that the daemon can reach, where the service process has ended and the respawn
  -- delay is not negative, the garbage timer runs with that delay, and when it fires the first word
  -- of the service command is started with the other words.
  pub process_finished-restarts :
      (c : Config) (s : Service) (d : ℕ)
      → Reachable qt c s
      → s.process ≡ some finished
      → c.service_respawn_delay ≡ pos d
      → (s.garbage_timer ≡ some (pos d))
        × (t : Service) × Step qt c s t (started c ∷ [])
        × (t.process ≡ some starting)
  unfolding IsSound
  process_finished-restarts c s d r e delay =
      let h = rw e at (Reachable-IsSound c s r) in
      let timer = h.0 ∙ ap some delay in (timer, _, garbage-Step c s d timer h.1, refl)

  -- In every state that the daemon can reach, where the service process could not be started,
  -- whatever happens next leaves the process so, and starts no program.
  pub process_failed-stays :
      (c : Config) (s t : Service) (es : List Effect)
      → Reachable qt c s
      → s.process ≡ some failed
      → Step qt c s t es
      → (t.process ≡ some failed) × StartsNothing es
  unfolding IsSound handle_restart kill_timer_data
  process_failed-stays c s _ _ r e (garbage_timeout d t) =
      absurd (cc (t, (rw e at (Reachable-IsSound c s r)).0))
  process_failed-stays c s _ _ r e (kill_timeout d t) = (e, rw e tt)
  process_failed-stays c s _ _ r e (process_started q) = absurd (cc (e, q))
  process_failed-stays c s _ _ r e (process_failed q) = absurd (cc (e, q))
  process_failed-stays c s _ _ r e (process_finished q) = absurd (cc (e, q))
  process_failed-stays c s _ _ r e restart_command = rw e (refl, tt)

  -- In every state that the daemon can reach, where the service process has ended and the respawn
  -- delay is not negative, a restart command arms the kill timer, the next process is started, and
  -- the kill timer can fire and kill that process.
  pub restart-kills_next :
      (c : Config) (s : Service) (d : ℕ)
      → Reachable qt c s
      → s.process ≡ some finished
      → c.service_respawn_delay ≡ pos d
      → (t : Service) × (u : Service) × (v : Service) × Step qt c s t (terminate_service ∷ [])
        × Step qt c t u (started c ∷ [])
        × Step qt c u v (kill_service ∷ [])
        × (v.process ≡ some starting)
  unfolding IsSound handle_restart kill_timer_data
  restart-kills_next c s d r e delay =
      let h = rw e at (Reachable-IsSound c s r) in
      let t : Service = record s { kill_timer = some (pos 5000) } in
      let u : Service = record t { garbage_timer = none; process = some starting } in
      let restarts : handle_restart s ≡ (t, terminate_service ∷ []) = rw e in
      (
        t,
        u,
        record u { kill_timer = none },
        subst (λ x. Step qt c s x.0 x.1) restarts restart_command,
        garbage-Step c t d (h.0 ∙ ap some delay) h.1,
        kill_timeout 5000 refl,
        refl,
      )
