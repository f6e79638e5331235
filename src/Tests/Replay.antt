-- ===== src/Tests/Replay.antt =====
-- The replay window of memnode/security.py on concrete frames.
use peer_memory.Prelude.{ℕ, ◌≡◌, refl, false, List, [], ◌∷◌, raise, pos, negsuc}
use peer_memory.Security.ReplayWindow.{
  ReplayWindow, bad_size, init, highest_seen, check_and_update, run,
}
use peer_memory.Security.ReplayWindow.Refinement.{Unique}
use peer_memory.Security.ReplayWindow.Refinement.{accepted_by, run_lem, run-Unique}

abbrev window : ReplayWindow
window = record { size = 4; highest = 0; bitmap = 0; seen_any = false }

-- 5 and 9 come twice; 3 comes late and in the window, then again; 4 comes too late.
abbrev frames : List ℕ
frames = 5 ∷ 5 ∷ 3 ∷ 3 ∷ 9 ∷ 9 ∷ 8 ∷ 4 ∷ []

frames_accepted : (run window [] frames).1 ≡ 8 ∷ 9 ∷ 3 ∷ 5 ∷ []
unfolding run check_and_update
frames_accepted = refl

window_edges :
    (init 0 ≡ raise bad_size)
    × (highest_seen window ≡ negsuc 0)
    × ((check_and_update window (negsuc 0)).1 ≡ false)
    × ((check_and_update window (pos 0x10000000000000000)).1 ≡ false)
unfolding init highest_seen check_and_update
window_edges = (refl, refl, refl, refl)

run_lem_example : (run window [] frames).1 ≡ accepted_by 4 [] frames
unfolding init
run_lem_example = run_lem 4 window frames refl

run-Unique_example : Unique (run window [] frames).1
unfolding init
run-Unique_example = run-Unique 4 window frames refl
