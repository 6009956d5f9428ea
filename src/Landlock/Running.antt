-- ===== src/Landlock/Running.antt =====
-- `LandlockSandboxRunner` of runeguard/core/landlock.py, and the code that
-- `_fork_exec_with_landlock` makes of the end of the child.
use runeguard.Prelude.{ℕ, ◌+◌, Text, codes, Bool, List, [], ◌∷◌, if◌then◌else◌}
use runeguard.Prelude.Int.{ℤ, pos}
use runeguard.Policy.Settings.{Policy}
use runeguard.Policy.FilePath.{FilePath, System}
use runeguard.Effects.{Action, pure, fail, lift, ◌>>=◌, ◌>>◌}
use runeguard.ToolProxy.{Judge, gated}
use runeguard.ChildEnv.{Env, filter_child_env}
use runeguard.Docker.{Host, at_name, or_fail, relative_to}
use runeguard.Docker.Running.{shell_kwargs, with_temporary}
use runeguard.Docker.Workspace.{passes_filter, place}

-- How a child ended, as `os.WIFEXITED` and `os.WIFSIGNALED` tell.
pub data Waited : Type 0 where
  exited : ℕ → Waited
  signaled : ℕ → Waited
  unknown : Waited

unfoldable pub exit_code : Waited → ℕ
exit_code (exited code) = code
exit_code (signaled signal) = 128 + signal
exit_code unknown = 1

pub record LandlockConfig : Type 0 where
  pub workspace : FilePath
  pub allow_weak_fallback : Bool

-- What the runner needs of the machine besides its files.
pub record LandlockHost (W : Type 0) : Type 0 where
  pub is_available : W → Bool
  pub environ : W → Env
  -- `subprocess.run(argv, cwd=cwd, env=env)`
  pub start : List Text → FilePath → Env → Action W ℤ
  -- `os.fork()` with the child of `_fork_exec_with_landlock`, and `os.waitpid`.
  pub fork_and_wait : List Text → FilePath → FilePath → Action W Waited

module _ {W : Type 0} (host : Host W) (landlock : LandlockHost W) (system : System)
    (policy : Policy) (config : LandlockConfig) where
  unfoldable pub landlock_workspace : Action W FilePath
  landlock_workspace w = or_fail (host.resolve_strict w (host.expanduser_path config.workspace)) w

  -- One round of the loop of `_copy_filtered_workspace`.
  unfoldable pub landlock_copy : FilePath → FilePath → FilePath → Action W (Unit {0})
  unfolding relative_to passes_filter place
  landlock_copy above destination source = do
    relative ← relative_to source above
    (if passes_filter system policy relative
        then place host destination source relative
        else pure tt)

  unfoldable pub landlock_copies : FilePath → FilePath → List FilePath → Action W (Unit {0})
  unfolding landlock_copy
  landlock_copies above destination [] = pure tt
  landlock_copies above destination (source ∷ sources) =
      landlock_copy above destination source >> landlock_copies above destination sources

  -- `_copy_filtered_workspace`
  unfoldable pub landlock_filtered : FilePath → Action W (Unit {0})
  unfolding landlock_workspace landlock_copies
  landlock_filtered destination = do
    above ← landlock_workspace
    λ w. landlock_copies above destination (host.rglob w above) w

  -- The body of the `with` of `run`.
  unfoldable pub run_filtered : List Text → FilePath → Action W ℤ
  unfolding landlock_filtered landlock_workspace exit_code
  run_filtered argv tmpdir =
      let filtered = at_name tmpdir (codes "workspace") in
      do
        host.mkdir filtered
        landlock_filtered filtered
        above ← landlock_workspace
        waited ← landlock.fork_and_wait argv above filtered
        pure (pos (exit_code waited))

  unfoldable pub run_unsandboxed : List Text → Action W ℤ
  unfolding landlock_workspace filter_child_env
  run_unsandboxed argv = do
    above ← landlock_workspace
    λ w. landlock.start argv above (filter_child_env policy (landlock.environ w)) w

  -- What `run` does behind the decision.
  unfoldable pub run_allowed : List Text → Action W ℤ
  unfolding run_filtered run_unsandboxed with_temporary
  run_allowed argv w =
      (if landlock.is_available w
          then with_temporary host (run_filtered argv)
          else if config.allow_weak_fallback
          then run_unsandboxed argv
          else fail)
        w

  -- `run`, which logs nothing.
  unfoldable pub landlock_run : Judge → List Text → Action W ℤ
  unfolding gated run_allowed
  landlock_run judge argv = do
    decision ← lift (judge (codes "shell") (shell_kwargs argv))
    gated decision (run_allowed argv)
