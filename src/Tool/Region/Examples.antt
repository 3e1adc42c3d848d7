-- ===== src/Tool/Region/Examples.antt =====
-- A tool that listens to a region of two threads whose microtask has no argument.
use hpx_mp.Base.{ℕ, zero, suc, ◌<◌, ◌≡◌, refl, true, some, List, [], ◌∷◌, arith}
use hpx_mp.Tool.Callbacks.{thread_begin, thread_end, parallel_begin, parallel_end, Ompt, event_id}
use hpx_mp.Tool.Region.{entering, left, thread_step, thread_steps, region_log, heard}
use hpx_mp.Tool.Region.Heard.{region_log-heard}

abbrev listening : Ompt
listening = record { enabled = true; active = λ e. true; callback = λ e. some (event_id e) }

abbrev both_threads : List ℕ
both_threads = 0 ∷ 1 ∷ 1 ∷ 0 ∷ []

both_left : (j : ℕ) → j < 2 → (thread_steps listening 0 both_threads (λ i. entering)).0 j ≡ left
unfolding thread_steps thread_step
both_left zero h = refl
both_left (suc zero) h = refl
both_left (suc (suc j)) h = absurd (omega arith)

region_log-heard_example :
    (heard parallel_begin (region_log listening 0 both_threads) ≡ 1)
    × (heard parallel_end (region_log listening 0 both_threads) ≡ 1)
    × (heard thread_end (region_log listening 0 both_threads) ≡ 2)
    × (heard thread_begin (region_log listening 0 both_threads) ≡ 0)
region_log-heard_example =
    region_log-heard listening 0 2 both_threads
      (omega arith, (omega arith, (omega arith, (omega arith, tt)))) both_left
