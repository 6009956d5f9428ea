-- ===== src/Landlock.antt =====
-- `apply_landlock` and the child of `_fork_exec_with_landlock` of runeguard/core/landlock.py. The
-- state is the list of the calls that succeeded, the latest first.
pub mod Access
pub mod Restricted
pub mod Running
pub mod Fallback
use runeguard.Prelude.{ℕ, Text, Bool, List, [], ◌∷◌, ◌==◌, if◌then◌else◌, Option, none, some}
use runeguard.Prelude.Int.{ℤ, pos, negsuc, int_eq}
use runeguard.Policy.Settings.{Policy}
use runeguard.Policy.FilePath.{FilePath, to_path}
use runeguard.Effects.{Exit, done, refused, failed, Action, pure, fail, ◌>>=◌, ◌>>◌}
use runeguard.ChildEnv.{Env, filter_child_env}
use runeguard.Docker.{child}
use runeguard.Landlock.Access.{◌∣◌, read_access, write_access, handled_access}

pub data Call : Type 0 where
  created : ℕ → ℤ → Call
  opened : FilePath → ℤ → Call
  added : ℤ → ℕ → ℤ → Call
  no_new_privs : Call
  restricted : ℤ → Call
  closed : ℤ → Call
  entered : FilePath → Call
  executed : List Text → Env → Call

abbrev pub Calls : Type 0
Calls = List Call

-- The kernel and the file system, after a list of calls.
pub record Kernel : Type 0 where
  -- Whether `_libc()` finds a library.
  pub has_libc : Bool
  -- The results of the system calls, and of `os.open`, which is `none` where it raises.
  pub create_ruleset : Calls → ℕ → ℤ
  pub open_path : Calls → FilePath → Option ℤ
  pub add_rule : Calls → ℤ → ℕ → ℤ → ℤ
  pub set_no_new_privs : Calls → ℤ
  pub restrict_self : Calls → ℤ → ℤ
  -- Whether `os.chdir` and the start of a program succeed.
  pub chdir : Calls → FilePath → Bool
  pub execvpe : Calls → List Text → Env → Bool
  pub expanduser : Text → Text
  pub exists : Calls → FilePath → Bool
  -- `path.resolve(strict=True)`
  pub resolve_strict : Calls → FilePath → Option FilePath
  pub environ : Env

-- `finally: os.close(fd)`
unfoldable pub closing : {A : Type 0} → ℤ → Action Calls A → Action Calls A
closing fd action calls = let (exit, after) = action calls in (exit, closed fd ∷ after)

-- A call that is noted where its result is 0, and raises otherwise.
unfoldable pub noted : Call → ℤ → Action Calls (Unit {0})
noted call result calls = if result == pos 0 then (done tt, call ∷ calls) else (failed, calls)

module _ (kernel : Kernel) where
  unfoldable pub opened_path : FilePath → Action Calls ℤ
  opened_path path calls = elim (kernel.open_path calls path) [
    | none ↦ (failed, calls)
    | some fd ↦ (done fd, opened path fd ∷ calls)
  ]

  -- The system call of `_add_path_rule`.
  unfoldable pub add_rule : ℤ → ℕ → ℤ → Action Calls (Unit {0})
  unfolding noted
  add_rule ruleset_fd access fd calls =
      noted (added ruleset_fd access fd) (kernel.add_rule calls ruleset_fd access fd) calls

  unfoldable pub add_path_rule : ℤ → FilePath → ℕ → Action Calls (Unit {0})
  unfolding opened_path closing add_rule
  add_path_rule ruleset_fd path access = do
    fd ← opened_path path
    closing fd (add_rule ruleset_fd access fd)

  -- The path of a writable entry before it is resolved.
  unfoldable pub writable_source : FilePath → Text → FilePath
  unfolding child
  writable_source workspace writable_path =
      let source = to_path (kernel.expanduser writable_path) in
      if source.is_absolute then source else child workspace source

  unfoldable pub add_resolved : ℤ → Option FilePath → Action Calls (Unit {0})
  unfolding add_path_rule
  add_resolved ruleset_fd none = fail
  add_resolved ruleset_fd (some path) = add_path_rule ruleset_fd path (read_access ∣ write_access)

  -- The loop of `apply_landlock`.
  unfoldable pub add_writable : ℤ → FilePath → List Text → Action Calls (Unit {0})
  unfolding writable_source add_resolved
  add_writable ruleset_fd workspace [] = pure tt
  add_writable ruleset_fd workspace (writable_path ∷ writable_paths) =
      let source = writable_source workspace writable_path in
      (λ calls.
        (if kernel.exists calls source
            then add_resolved ruleset_fd (kernel.resolve_strict calls source)
            else pure tt)
          calls)
      >> add_writable ruleset_fd workspace writable_paths

  unfoldable pub restrict : ℤ → Action Calls (Unit {0})
  unfolding noted
  restrict ruleset_fd =
      (λ calls. noted no_new_privs (kernel.set_no_new_privs calls) calls) >> λ calls.
      noted (restricted ruleset_fd) (kernel.restrict_self calls ruleset_fd) calls

  -- `landlock_create_ruleset` with its test for an error.
  unfoldable pub create_ruleset : Action Calls ℤ
  create_ruleset calls = elim (kernel.create_ruleset calls handled_access) [
    | negsuc n ↦ (failed, calls)
    | pos n ↦ (done (pos n), created handled_access (pos n) ∷ calls)
  ]

  -- The `try` of `apply_landlock`.
  unfoldable pub fill_ruleset : Policy → FilePath → FilePath → ℤ → Action Calls (Unit {0})
  unfolding add_path_rule add_writable restrict
  fill_ruleset policy workspace filtered ruleset_fd = do
    add_path_rule ruleset_fd filtered read_access
    add_writable ruleset_fd workspace policy.writable_paths
    restrict ruleset_fd

  unfoldable pub apply_landlock : Policy → FilePath → FilePath → Action Calls (Unit {0})
  unfolding create_ruleset closing fill_ruleset
  apply_landlock policy workspace filtered =
      if kernel.has_libc
      then (do
        ruleset_fd ← create_ruleset
        closing ruleset_fd (fill_ruleset policy workspace filtered ruleset_fd))
      else fail

  unfoldable pub chdir : FilePath → Action Calls (Unit {0})
  chdir path calls =
      if kernel.chdir calls path then (done tt, entered path ∷ calls) else (failed, calls)

  unfoldable pub execvpe : List Text → Env → Action Calls (Unit {0})
  execvpe [] env calls = (failed, calls)
  execvpe (program ∷ arguments) env calls =
      if kernel.execvpe calls (program ∷ arguments) env
      then (done tt, executed (program ∷ arguments) env ∷ calls)
      else (failed, calls)

  -- The `try` of the child; where it raises the child ends with 1.
  unfoldable pub run_child : List Text → Policy → FilePath → FilePath → Action Calls (Unit {0})
  unfolding apply_landlock chdir execvpe filter_child_env
  run_child argv policy workspace filtered = do
    apply_landlock policy workspace filtered
    chdir filtered
    execvpe argv (filter_child_env policy kernel.environ)
