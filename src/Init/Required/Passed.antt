-- ===== src/Init/Required/Passed.antt =====
-- A status of 0 is recorded only after nothing that was needed failed, and bash ended with 0.
use ossein_kernel.Base.{
  Bytes, List, Option, [], ap, arith, codes, equal, is_some, none, refl, some, suc, true, zero, ◌∷◌,
  ◌≡◌,
}
use ossein_kernel.Init.{
  Answer, Call, History, M, Result, World, and_then, attempt, bash, busy, close, create, done, err,
  exited, failed, lease, links, not_exist, ok, open_file, other, read_file, request, sync, text,
  ◌>>=◌, ◌>>◌,
}
use ossein_kernel.Init.Mounts.{kernel_share}
use ossein_kernel.Init.Network.{finally}
use ossein_kernel.Init.Main.{outcome_of, recorded, run_init, set_up, status_of}
use ossein_kernel.Init.Required.{
  Good, Keeps, Keeps-bind, Keeps-request, Reads, Smooth, needed, ◌then◌,
}
use ossein_kernel.Init.Build.{
  build_log, build_script_path, ended, env_file, opened_env, read_env_file, run_build, scanned,
  scanned_lines,
}
use ossein_kernel.Numbers.{negsuc, pos, ℤ}
use ossein_kernel.Strings.{scan_lines}
use ossein_kernel.Init.Required.SetUp.{Keeps-finally, set_up-Keeps}

Good-scanned_lines :
    (o : Option (List Bytes)) (w : World) (h : History)
    → (is_some o ≡ true → Smooth w h)
    → Good w (scanned_lines o w h).0 (scanned_lines o w h).1
Good-scanned_lines none w h s = tt
Good-scanned_lines (some ls) w h s = s refl

Reads-scanned : Reads (read_file env_file) scanned
unfolding equal codes
Reads-scanned (text t) w h s = Good-scanned_lines (scan_lines t) w h s
Reads-scanned done w h s = tt
Reads-scanned (failed e) w h s = tt
Reads-scanned (links ls) w h s = tt
Reads-scanned (lease l) w h s = tt
Reads-scanned (exited n) w h s = tt

Reads-opened_env : Reads (open_file env_file) opened_env
Reads-opened_env done w h s =
    (Keeps-finally (close env_file) (λ a. refl) (Keeps-request scanned Reads-scanned)).keeps w h
      (s refl)
Reads-opened_env (failed not_exist) w h s = s refl
Reads-opened_env (failed busy) w h s = tt
Reads-opened_env (failed (other n)) w h s = tt
Reads-opened_env (text t) w h s = tt
Reads-opened_env (links ls) w h s = tt
Reads-opened_env (lease l) w h s = tt
Reads-opened_env (exited n) w h s = tt

abbrev bash_call : List Bytes → Call
bash_call env = bash build_script_path env kernel_share

Reads-ended : (env : List Bytes) → Reads (bash_call env) (ended (bash_call env))
Reads-ended env done w h s = s refl
Reads-ended env (exited n) w h s = s refl
Reads-ended env (failed e) w h s = tt
Reads-ended env (text t) w h s = tt
Reads-ended env (links ls) w h s = tt
Reads-ended env (lease l) w h s = tt

-- The run of bash, with its log.
abbrev logged : List Bytes → M ℤ
logged env =
    finally (finally (request (bash_call env) >>= ended (bash_call env)) (sync build_log))
      (close build_log)

logged-Keeps : (env : List Bytes) → Keeps (logged env)
logged-Keeps env =
    Keeps-finally (close build_log) (λ a. refl)
      (Keeps-finally (sync build_log) (λ a. refl)
        (Keeps-request (ended (bash_call env)) (Reads-ended env)))

run_build-Keeps : Keeps run_build
unfolding run_build read_env_file
run_build-Keeps =
    Keeps-bind (λ env. attempt (create build_log) >> logged env)
      (Keeps-request opened_env Reads-opened_env)
      (λ env. needed (create build_log) refl then logged-Keeps env)

-- The exit code in an answer to bash.
abbrev pub exit_of : Answer → Option ℤ
exit_of (exited n) = some n
exit_of done = some (pos 0)
exit_of _ = none

-- The last calls are the run of bash, which ended with `n`, and those that close its log.
pub record BashEnded (w : World) (n : ℤ) (h : History) : Type 0 where
  pub env : List Bytes
  pub before : History
  pub last_calls : h ≡ close build_log ∷ sync build_log ∷ bash_call env ∷ before
  pub exit : exit_of (w before (bash_call env)) ≡ some n

abbrev Ended : World → Result ℤ → History → Type 0
Ended w (ok n) h = BashEnded w n h
Ended w (err e) h = Unit

Ended-and_then :
    {A : Type 0} (f : A → M ℤ) (w : World)
    → ((a : A) (h : History) → Ended w (f a w h).0 (f a w h).1)
    → (r : Result A) (h : History) → Ended w (and_then f r w h).0 (and_then f r w h).1
Ended-and_then f w k (ok a) h = k a h
Ended-and_then f w k (err e) h = tt

Ended-of_answer :
    (env : List Bytes) (w : World) (h : History) (a : Answer)
    → w h (bash_call env) ≡ a
    → Ended w
        (ended (bash_call env) a w (bash_call env ∷ h)).0
        (close build_log ∷ sync build_log ∷ (ended (bash_call env) a w (bash_call env ∷ h)).1)
Ended-of_answer env w h done e = record {
  env = env;
  before = h;
  last_calls = refl;
  exit = ap exit_of e;
}
Ended-of_answer env w h (exited n) e = record {
  env = env;
  before = h;
  last_calls = refl;
  exit = ap exit_of e;
}
Ended-of_answer env w h (failed f) e = tt
Ended-of_answer env w h (text t) e = tt
Ended-of_answer env w h (links ls) e = tt
Ended-of_answer env w h (lease l) e = tt

run_build-Ended : (w : World) (h : History) → Ended w (run_build w h).0 (run_build w h).1
unfolding run_build
run_build-Ended w h =
    Ended-and_then (λ env. attempt (create build_log) >> logged env) w
      (λ env h.
        Ended-and_then (λ _. logged env) w
          (λ _ h. Ended-of_answer env w h (w h (bash_call env)) refl)
          (attempt (create build_log) w h).0 (attempt (create build_log) w h).1)
      (read_env_file w h).0 (read_env_file w h).1

-- Every call was answered so that the init goes on, and bash ended with `n`.
pub record Passed (w : World) (n : ℤ) (h : History) : Type 0 where
  pub smooth : Smooth w h
  pub bash_ended : BashEnded w n h

Passed-of_outcome :
    (w : World) (r : Result ℤ) (h : History)
    → Good w r h
    → Ended w r h
    → status_of (outcome_of r).code (outcome_of r).error ≡ pos 0
    → Passed w (pos 0) h
Passed-of_outcome w (ok (pos zero)) h g e s = record { smooth = g; bash_ended = e }
Passed-of_outcome w (ok (pos (suc n))) h g e s = ground arith
Passed-of_outcome w (ok (negsuc n)) h g e s = ground arith
Passed-of_outcome w (err f) h g e s = ground arith

-- If the init records the status 0, then every call of the set-up and of the build was answered
-- without a failure that is not tolerated (`build.env` was read with no line too long, if it could be
-- opened), and the last call but for the log was bash's run of the build script, which ended with 0.
pub recorded_zero : (w : World) → recorded w ≡ pos 0 → Passed w (pos 0) (run_init w).1
unfolding recorded run_init
recorded_zero w e =
    Passed-of_outcome w ((set_up >> run_build) w []).0 ((set_up >> run_build) w []).1
      ((set_up-Keeps then run_build-Keeps).keeps w [] tt)
      (Ended-and_then (λ _. run_build) w (λ _ h. run_build-Ended w h) (set_up w []).0
        (set_up w []).1)
      e
