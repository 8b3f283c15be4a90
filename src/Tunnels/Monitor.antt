-- ===== src/Tunnels/Monitor.antt =====
-- tunnel_monitor_thread of src/process_manager.c: what a monitor announces about its process.
use sshpad.Prelude.{
  ℕ, zero, suc, ◌+◌, ◌≤◌, ◌<◌, Option, none, some, List, [], ◌∷◌, ◌≡◌, refl, ◌≢◌, arith,
  if◌then◌else◌, Bytes, ℤ, pos, negsuc, is_zero,
}
use sshpad.Tunnels.{Status, active_status, error_status, inactive_status}

-- What waitpid answers. `failed` is a negative result.
pub data Wait : Type 0 where
  still_running failed : Wait
  exited signaled : ℕ → Wait

-- `signaled` carries the signal's number less one.
unfoldable pub exit_code : Wait → ℤ
exit_code (exited code) = pos code
exit_code (signaled n) = negsuc n
exit_code _ = negsuc 0

abbrev pub Notice : Type 0
Notice = Status × ℤ × Option Bytes

abbrev first_exit : Wait → Option Wait → Option Wait
first_exit still_running later = later
first_exit failed later = some failed
first_exit (exited c) later = some (exited c)
first_exit (signaled n) later = some (signaled n)

-- The loop of non-blocking probes: the first answer that is not `still_running`.
unfoldable pub probe : (ℕ → Wait) → ℕ → ℕ → Option Wait
probe waits i zero = none
probe waits i (suc checks) = let rest = probe waits (i + 1) checks in first_exit (waits i) rest

abbrev pub probe_max_checks : ℕ
probe_max_checks = 24

unfoldable pub exit_notice : ℤ → Option Bytes → Notice
exit_notice code message = (inactive_status, code, if is_zero code then none else message)

unfoldable pub announce : Option Wait → Wait → Option Bytes → List Notice
announce none final message =
    (active_status, pos 0, none) ∷ exit_notice (exit_code final) message ∷ []
announce (some w) final message =
    if is_zero (exit_code w)
    then exit_notice (exit_code w) message ∷ []
    else (error_status, exit_code w, message) ∷ exit_notice (exit_code w) message ∷ []

-- `final` is the answer of the blocking waitpid, `message` what the process wrote to stderr.
unfoldable pub monitor : (ℕ → Wait) → Wait → Option Bytes → List Notice
monitor waits final message = announce (probe waits 0 probe_max_checks) final message

probe-none :
    (waits : ℕ → Wait) (checks i : ℕ)
    → ((j : ℕ) → i ≤ j → j < i + checks → waits j ≡ still_running)
    → probe waits i checks ≡ none
unfolding probe
probe-none waits zero i h = refl
probe-none waits (suc checks) i h = rw (
  h i (omega arith) (omega arith),
  probe-none waits checks (i + 1) (λ j p q. h j (omega arith) (omega arith)),
)

first_exit-some : (w : Wait) (later : Option Wait) → w ≢ still_running → first_exit w later ≡ some w
first_exit-some still_running later ne = absurd (ne refl)
first_exit-some failed later ne = refl
first_exit-some (exited c) later ne = refl
first_exit-some (signaled n) later ne = refl

probe-some :
    (waits : ℕ → Wait) (checks i k : ℕ)
    → ((j : ℕ) → i ≤ j → j < i + k → waits j ≡ still_running)
    → k < checks
    → waits (i + k) ≢ still_running
    → probe waits i checks ≡ some (waits (i + k))
unfolding probe
probe-some waits zero i k h lt ne = absurd (omega arith)
probe-some waits (suc checks) i zero h lt ne =
    let here : i + 0 ≡ i = omega arith in
    rw here (first_exit-some (waits i) _ (λ e. ne (rw here e)))
probe-some waits (suc checks) i (suc k) h lt ne =
    let next : i + suc k ≡ i + 1 + k = omega arith in
    rw (h i (omega arith) (omega arith), next)
      (probe-some waits checks (i + 1) k (λ j p q. h j (omega arith) (omega arith)) (omega arith)
        (λ e. ne (rw next e)))

-- A process that outlives all 24 probes is announced as active, and later, when it has ended, as
-- inactive with its exit code.
pub monitor_alive :
    (waits : ℕ → Wait) (final : Wait) (message : Option Bytes)
    → ((j : ℕ) → j < probe_max_checks → waits j ≡ still_running)
    → monitor waits final message
      ≡ (active_status, pos 0, none) ∷ exit_notice (exit_code final) message ∷ []
unfolding monitor announce
monitor_alive waits final message up =
    rw (probe-none waits probe_max_checks 0 (λ j p q. up j (omega arith))) refl

gone_at :
    (waits : ℕ → Wait) (k : ℕ)
    → ((j : ℕ) → j < k → waits j ≡ still_running)
    → k < probe_max_checks
    → waits k ≢ still_running
    → probe waits 0 probe_max_checks ≡ some (waits k)
gone_at waits k up lt gone =
    let here : 0 + k ≡ k = omega arith in
    rw here at (
      probe-some waits probe_max_checks 0 k (λ j p q. up j (omega arith)) lt
        (λ e. gone (rw here at e)))

-- A process that is found gone at probe k, below 24, and was running at the probes before, is never
-- announced as active: it is announced as an error first if its exit code is not 0, and as inactive
-- in any case.
pub monitor_gone :
    (waits : ℕ → Wait) (final : Wait) (message : Option Bytes) (k : ℕ)
    → ((j : ℕ) → j < k → waits j ≡ still_running)
    → k < probe_max_checks
    → waits k ≢ still_running
    → monitor waits final message ≡ (
        if is_zero (exit_code (waits k))
        then exit_notice (exit_code (waits k)) message ∷ []
        else (error_status, exit_code (waits k), message)
          ∷ exit_notice (exit_code (waits k)) message
          ∷ [])
unfolding monitor announce
monitor_gone waits final message k up lt gone = rw (gone_at waits k up lt gone) refl
