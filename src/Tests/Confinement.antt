-- ===== src/Tests/Confinement.antt =====
-- A concrete kernel, for the theorems on runeguard/core/landlock.py.
use runeguard.Prelude.{◌≡◌, ◌+◌, refl, codes, true, false, [], ◌∷◌, some, nat_eq, list_eq}
use runeguard.Prelude.Int.{pos, int_eq}
use runeguard.Policy.Settings.{Policy}
use runeguard.Policy.FilePath.{FilePath, to_path}
use runeguard.Effects.{done}
use runeguard.ChildEnv.{filter_child_env}
use runeguard.Docker.Running.{AllowsCommand}
use runeguard.Landlock.{
  Calls, Kernel, created, opened, added, no_new_privs, restricted, closed, entered, executed,
  run_child,
}
use runeguard.Landlock.Access.{◌∣◌, read_access, write_access, handled_access}
use runeguard.Landlock.Restricted.{Restrained, run_child-Restrained}
use runeguard.Landlock.Running.{LandlockConfig, LandlockHost, exited, landlock_run}
use runeguard.Landlock.Fallback.{IsEnforced, landlock_run-cleared}
use runeguard.Tests.Settings.{offline}
use runeguard.Tests.Calls.{plain_system}
use runeguard.Tests.Serving.{everything}
use runeguard.Tests.Containers.{Copies, host}

abbrev kernel : Kernel
kernel = record {
  has_libc = true;
  create_ruleset = λ calls access. pos 3;
  open_path = λ calls path. some (pos 4);
  add_rule = λ calls ruleset_fd access fd. pos 0;
  set_no_new_privs = λ calls. pos 0;
  restrict_self = λ calls ruleset_fd. pos 0;
  chdir = λ calls path. true;
  execvpe = λ calls argv env. true;
  expanduser = λ path. path;
  exists = λ calls path. true;
  resolve_strict = λ calls path. some path;
  environ = [];
}

abbrev app : FilePath
app = to_path (codes "/home/dev/app")

abbrev filtered : FilePath
filtered = to_path (codes "/tmp/x/workspace")

abbrev out : FilePath
out = to_path (codes "/home/dev/app/out")

abbrev writing : Policy
writing = record offline { writable_paths = codes "/home/dev/app/out" ∷ [] }

abbrev child_calls : Calls
child_calls =
    executed (codes "ls" ∷ []) (filter_child_env writing [])
    ∷ entered filtered
    ∷ closed (pos 3)
    ∷ restricted (pos 3)
    ∷ no_new_privs
    ∷ closed (pos 4)
    ∷ added (pos 3) (read_access ∣ write_access) (pos 4)
    ∷ opened out (pos 4)
    ∷ closed (pos 4)
    ∷ added (pos 3) read_access (pos 4)
    ∷ opened filtered (pos 4)
    ∷ created handled_access (pos 3)
    ∷ []

ran : run_child kernel (codes "ls" ∷ []) writing app filtered [] ≡ (done tt, child_calls)
unfolding run_child to_path nat_eq int_eq list_eq
ran = refl

run_child-Restrained_example :
    (before : Calls) × Restrained kernel writing app filtered [] before
    × (child_calls
        ≡ executed (codes "ls" ∷ []) (filter_child_env writing kernel.environ)
          ∷ entered filtered
          ∷ before)
run_child-Restrained_example =
    run_child-Restrained kernel writing app filtered (codes "ls" ∷ []) [] child_calls ran

-- The rights, as the kernel numbers them.
rights : handled_access ≡ 32767
unfolding handled_access nat_eq
rights = refl

rights_to_write : write_access + read_access ≡ 32767
unfolding write_access read_access nat_eq
rights_to_write = refl

abbrev landlock : LandlockHost Copies
landlock = record {
  is_available = λ copies. false;
  environ = λ copies. [];
  start = λ argv workspace env copies. (done (pos 0), copies);
  fork_and_wait = λ argv workspace filtered copies. (done (exited 0), copies);
}

abbrev weak : LandlockConfig
weak = record { workspace = to_path (codes "/home/dev/app"); allow_weak_fallback = true }

ran_weakly :
    landlock_run host landlock plain_system offline weak everything (codes "ls" ∷ []) []
    ≡ (done (pos 0), [])
unfolding landlock_run
ran_weakly = refl

landlock_run-cleared_example :
    AllowsCommand everything (codes "ls" ∷ [])
    × IsEnforced host landlock plain_system offline weak []
landlock_run-cleared_example =
    landlock_run-cleared host landlock plain_system offline weak everything (codes "ls" ∷ []) []
      (pos 0) [] ran_weakly
