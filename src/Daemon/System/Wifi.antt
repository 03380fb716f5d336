-- ===== src/Daemon/System/Wifi.antt =====
-- The loop that removes the processes of `Wifi` that do not run (src/webhostd/wifi.cpp).
use webhost.Base.{
  ℕ, zero, suc, ◌<◌, ◌≡◌, refl, sym, ap, ◌∙◌, true, false, List, [], ◌∷◌, some, arith, length,
  Bool-cases, inl, inr,
}
use webhost.Daemon.Service.{Process, starting, running, finished, failed}
use webhost.Daemon.System.{is_active, remove_stopped, remove_loop, wifi_process_finished_data}

-- The processes that start or run, in their order.
pub active : List Process → List Process
active [] = []
active (starting ∷ ps) = starting ∷ active ps
active (running ∷ ps) = running ∷ active ps
active (finished ∷ ps) = active ps
active (failed ∷ ps) = active ps

active-kept :
    (p : Process) (ps : List Process) → is_active p ≡ true → active (p ∷ ps) ≡ p ∷ active ps
unfolding is_active active
active-kept starting ps h = refl
active-kept running ps h = refl
active-kept finished ps h = absurd (ground arith)
active-kept failed ps h = absurd (ground arith)

active-dropped :
    (p : Process) (ps : List Process) → is_active p ≡ false → active (p ∷ ps) ≡ active ps
unfolding is_active active
active-dropped starting ps h = absurd (ground arith)
active-dropped running ps h = absurd (ground arith)
active-dropped finished ps h = refl
active-dropped failed ps h = refl

remove_stopped-length :
    (ps : List Process)
    → (remove_stopped ps).1 ≡ true
    → suc (length (remove_stopped ps).0) ≡ length ps
unfolding remove_stopped
remove_stopped-length [] h = absurd (ground arith)
remove_stopped-length (p ∷ ps) h = elim (Bool-cases (is_active p)) [
  | inl e ↦ rw e (ap suc (remove_stopped-length ps (rw e at h)))
  | inr e ↦ rw e
]

remove_stopped-active : (ps : List Process) → active (remove_stopped ps).0 ≡ active ps
unfolding remove_stopped
remove_stopped-active [] = refl
remove_stopped-active (p ∷ ps) = elim (Bool-cases (is_active p)) [
  | inl e ↦ rw e (
      active-kept p (remove_stopped ps).0 e
      ∙ ap (◌∷◌ p) (remove_stopped-active ps)
      ∙ sym (active-kept p ps e))
  | inr e ↦ rw e (sym (active-dropped p ps e))
]

remove_stopped-none :
    (ps : List Process) → (remove_stopped ps).1 ≡ false → (remove_stopped ps).0 ≡ active ps
unfolding remove_stopped active
remove_stopped-none [] h = refl
remove_stopped-none (p ∷ ps) h = elim (Bool-cases (is_active p)) [
  | inl e ↦ rw e (ap (◌∷◌ p) (remove_stopped-none ps (rw e at h)) ∙ sym (active-kept p ps e))
  | inr e ↦ absurd (ground arith)
]

remove_loop-active :
    (fuel : ℕ) (ps : List Process) → length ps < fuel → remove_loop fuel ps ≡ some (active ps)
unfolding remove_loop
remove_loop-active zero ps h = elim h [ ]
remove_loop-active (suc fuel) ps h = elim (Bool-cases (remove_stopped ps).1) [
  | inl e ↦ rw e (
      remove_loop-active fuel (remove_stopped ps).0 (omega (arith, remove_stopped-length ps e))
      ∙ ap some (remove_stopped-active ps))
  | inr e ↦ rw (e, remove_stopped-none ps e)
]

-- The loop ends, and leaves exactly the processes that start or run, in their order.
pub wifi_process_finished_data-active :
    (ps : List Process) → wifi_process_finished_data ps ≡ some (active ps)
unfolding wifi_process_finished_data
wifi_process_finished_data-active ps = remove_loop-active (suc (length ps)) ps (omega arith)
