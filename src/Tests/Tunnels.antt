-- ===== src/Tests/Tunnels.antt =====
-- src/process_manager.c at concrete inputs.
use sshpad.Prelude.{
  ℕ, zero, suc, ◌<◌, true, false, none, some, [], ◌∷◌, ◌≡◌, refl, ◌≢◌, ◌⊎◌, arith, codes, str_eq,
}
use sshpad.Text.{is_alnum}
use sshpad.Config.Host.{copy}
use sshpad.Config.Fields.{is_empty}
use sshpad.Tunnels.{
  Tunnel, Table, reserve, register, start_tunnel, stop_tunnel, get_tunnel_status, has_active,
  find_inactive, runs_host, take_slot, shift_slot, is_valid_host_alias, all_alias_bytes,
}
use sshpad.Tunnels.Unique.{IsWf, count_active, start_tunnel-IsWf}
use sshpad.Tunnels.Stop.{start_tunnel-stop_tunnel}
use sshpad.Tunnels.Race.{reserve_twice}
use sshpad.Tunnels.{running, collected, wait_failed, term_targets, kill_targets}
use sshpad.Tunnels.KillAll.{is_in, release_all, kill_all_reaches}
use sshpad.Tunnels.Monitor.{Wait, still_running, exited}

abbrev db : Tunnel
db = record { host = codes "db"; pid = 7; active = true; stderr_fd = some 5 }

abbrev ended : Tunnel
ended = record { host = codes "old"; pid = 0; active = false; stderr_fd = none }

abbrev table : Table
table = db ∷ ended ∷ []

table-IsWf : IsWf table
unfolding count_active runs_host
table-IsWf = record { single = λ name. ground arith; bounded = omega arith }

start_tunnel-IsWf_example : IsWf (start_tunnel (codes "web") (some 6) (some 9) table).table
start_tunnel-IsWf_example =
    start_tunnel-IsWf (codes "web") (some 6) (some 9) table (omega arith) table-IsWf

web_starts : (start_tunnel (codes "web") (some 6) (some 9) table).succeeded ≡ true
unfolding start_tunnel get_tunnel_status reserve is_valid_host_alias all_alias_bytes take_slot
    find_inactive shift_slot has_active runs_host str_eq register is_alnum is_empty copy
web_starts = refl

start_tunnel-stop_tunnel_example :
    stop_tunnel (codes "web") (start_tunnel (codes "web") (some 6) (some 9) table).table ≡ some 9
start_tunnel-stop_tunnel_example =
    start_tunnel-stop_tunnel (codes "web") (some 6) 9 table (omega arith) web_starts

web_reserved : reserve (codes "web") table ≡ some (table, 1)
unfolding start_tunnel get_tunnel_status reserve is_valid_host_alias all_alias_bytes take_slot
    find_inactive shift_slot has_active runs_host str_eq register is_alnum is_empty copy
web_reserved = refl

web_inactive : has_active (codes "web") table ≡ false
unfolding start_tunnel get_tunnel_status reserve is_valid_host_alias all_alias_bytes take_slot
    find_inactive shift_slot has_active runs_host str_eq register is_alnum is_empty copy
web_inactive = refl

-- Two calls for the same host.
reserve_twice_example :
    (reserve (codes "web") table ≡ some (table, 1))
    × (register (codes "web") 10 (some 8) 1 (register (codes "web") 9 (some 6) 1 table)
        ≡ register (codes "web") 10 (some 8) 1 table)
reserve_twice_example =
    reserve_twice (codes "web") (codes "web") table table 1 9 10 (some 6) (some 8) web_reserved
      web_inactive

abbrev always : ℕ → Wait
always i = still_running

-- The process is gone at the third probe, with exit code 255.
abbrev soon : ℕ → Wait
soon zero = still_running
soon (suc zero) = still_running
soon (suc (suc i)) = exited 255

soon_up : (j : ℕ) → j < 2 → soon j ≡ still_running
soon_up zero h = refl
soon_up (suc zero) h = refl
soon_up (suc (suc i)) h = absurd (omega arith)

soon_gone : soon 2 ≢ still_running
soon_gone = cc

kill_all_reaches_example :
    (is_in 7 (term_targets table) ≡ true)
    × ((is_in 0 (1 ∷ []) ≡ true)
        ⊎ ((running ≡ collected)
            ⊎ ((running ≡ wait_failed)
                ⊎ (is_in 7 (kill_targets (λ pid. running) (release_all (1 ∷ []) table)) ≡ true))))
kill_all_reaches_example = kill_all_reaches table (1 ∷ []) (λ pid. running) 0 db refl refl
