-- ===== src/Tests/Containers.antt =====
-- A concrete host, for the theorems on runeguard/core/docker.py.
use runeguard.Prelude.{
  ◌≡◌, ◌≢◌, ◌⊎◌, refl, Text, codes, true, false, List, [], ◌∷◌, ◌++◌, All, none, some, nat_eq,
  list_eq,
}
use runeguard.Outcome.{ok}
use runeguard.Decision.{Decision, allow, block}
use runeguard.Prelude.Int.{pos}
use runeguard.Json.{str, array, field, end}
use runeguard.Logger.{Sink, no_audit_fields, log_decision}
use runeguard.Policy.FilePath.{FilePath, to_path, path_text, is_relative_to, same_path}
use runeguard.Policy.Settings.{Policy}
use runeguard.Policy.Protected.{is_denied_workspace_path, is_allowed_workspace_path}
use runeguard.Effects.{done, refuse, ◌>>◌}
use runeguard.ToolProxy.{Judge}
use runeguard.Docker.{
  DockerSandboxConfig, Host, child, below, container_workdir, workspace_mount, mounted_workspace,
  build_docker_argv,
}
use runeguard.Docker.Running.{texts, run}
use runeguard.Docker.Restricted.{IsRestricted}
use runeguard.Docker.Mounts.{IsWorkspace, SafeMounts, build_docker_argv-SafeMounts}
use runeguard.Docker.Workspace.{copy_filtered_workspace}
use runeguard.Docker.Filtering.{copy_filtered_workspace-Keeps}
use runeguard.Docker.Refusing.{run-refused}
use runeguard.Tests.Settings.{offline}
use runeguard.Tests.Calls.{plain_system}
use runeguard.Tests.Serving.{a_process, quietly, shown}

-- The copies that were made, the latest first.
abbrev pub Copies : Type 0
Copies = List (FilePath × FilePath)

abbrev pub host : Host Copies
host = record {
  home = to_path (codes "/home/dev");
  expanduser = λ path. path;
  expanduser_path = λ path. path;
  resolve_strict = λ copies path. some path;
  resolve = λ copies path. path;
  exists = λ copies path. true;
  is_dir = λ copies path. false;
  rglob = λ copies path.
      to_path (codes "/home/dev/app/main.py") ∷ to_path (codes "/home/dev/app/.env") ∷ [];
  mkdir = λ path copies. (done tt, copies);
  copy = λ source target copies. (done tt, (source, target) ∷ copies);
  make_temporary = λ copies. (done (to_path (codes "/tmp/x")), copies);
  remove_temporary = λ path copies. copies;
  run = λ argv copies. (done (pos 0), copies);
  show_number = λ number. codes "256";
}

abbrev config : DockerSandboxConfig
config = record {
  image = codes "python";
  workspace = codes "/home/dev/app";
  unsafe_writable_workspace = false;
  readonly_rootfs = true;
  tmpfs_mounts = codes "/tmp" ∷ [];
  network = codes "bridge";
  memory = codes "512m";
  cpus = codes "1";
  pids_limit = 256;
  user = codes "65532:65532";
  filtered_workspace = true;
}

abbrev sandboxed : Policy
sandboxed = record offline { readonly_workspace = true }

-- Copies of files below the workspace whose names there pass the filter.
abbrev PassedFilter : FilePath × FilePath → Type 0
PassedFilter (source, target) =
    (above : FilePath) × (destination : FilePath) × (target
      ≡ child destination (below source above))
    × IsWorkspace host sandboxed config above
    × (is_denied_workspace_path plain_system sandboxed (path_text (below source above)) ≡ false)
    × (is_allowed_workspace_path plain_system sandboxed (path_text (below source above)) ≡ true)

copy_filtered_workspace-Keeps_example :
    All PassedFilter
      (copy_filtered_workspace host plain_system sandboxed config
        (to_path (codes "/tmp/x/workspace"))
        []).1
copy_filtered_workspace-Keeps_example =
    copy_filtered_workspace-Keeps (All PassedFilter) host plain_system sandboxed config
      (λ path copies passed. passed)
      (λ above source destination found inside permitted admitted copies passed.
        ((above, destination, refl, found, permitted, admitted), passed))
      (to_path (codes "/tmp/x/workspace")) [] tt

abbrev pub sink : Sink Copies
sink = record {
  append = λ path fields copies. (done tt, copies);
  print = λ text copies. (done tt, copies);
  process = λ copies. a_process;
  show = shown;
  dumps = shown;
}

abbrev nothing : Decision
nothing = record { type = block; reason = codes "no" }

abbrev pub refusing : Judge
refusing tool_name kwargs = ok nothing

not_allowed : nothing.type ≢ allow
not_allowed h = cc

run-refused_example :
    run host plain_system sandboxed config sink refusing quietly (codes "ls" ∷ []) []
    ≡ (log_decision sink quietly
            (codes "sandbox.policy")
            nothing
            (field
              (codes "argv")
              (array (texts (codes "ls" ∷ [])))
              (field (codes "backend") (str (codes "docker")) end))
            no_audit_fields
          >> refuse (codes "no"))
        []
run-refused_example =
    run-refused host plain_system sandboxed config sink refusing quietly (codes "ls" ∷ []) nothing
      [] refl not_allowed

abbrev built : List Text
built =
    codes "docker"
    ∷ codes "run"
    ∷ codes "--rm"
    ∷ codes "--workdir"
    ∷ codes "/workspace"
    ∷ codes "--mount"
    ∷ codes "type=bind,source=/home/dev/app,target=/workspace,readonly"
    ∷ codes "--user"
    ∷ codes "65532:65532"
    ∷ codes "--network"
    ∷ codes "none"
    ∷ codes "--memory"
    ∷ codes "512m"
    ∷ codes "--cpus"
    ∷ codes "1"
    ∷ codes "--pids-limit"
    ∷ codes "256"
    ∷ codes "--cap-drop"
    ∷ codes "ALL"
    ∷ codes "--security-opt"
    ∷ codes "no-new-privileges"
    ∷ codes "--read-only"
    ∷ codes "--tmpfs"
    ∷ codes "/tmp"
    ∷ codes "python"
    ∷ codes "ls"
    ∷ []

built_here : build_docker_argv host sandboxed config (codes "ls" ∷ []) none [] ≡ (done built, [])
unfolding build_docker_argv same_path list_eq to_path nat_eq is_relative_to path_text
built_here = refl

build_docker_argv-SafeMounts_example :
    ((sandboxed.readonly_workspace ≡ true) ⊎ (config.unsafe_writable_workspace ≡ true))
    × ((mounted : FilePath) × (mounts : List Text) × (options : List Text) × (w₁ : Copies)
        × (mounted_workspace host sandboxed config none [] ≡ (done mounted, w₁))
        × SafeMounts host sandboxed config mounts
        × IsRestricted host sandboxed config options
        × (built
            ≡ codes "docker"
                ∷ codes "run"
                ∷ codes "--rm"
                ∷ codes "--workdir"
                ∷ container_workdir
                ∷ codes "--mount"
                ∷ workspace_mount host sandboxed config mounted
                ∷ mounts
              ++ (options ++ (config.image ∷ codes "ls" ∷ []))))
build_docker_argv-SafeMounts_example =
    build_docker_argv-SafeMounts host sandboxed config (codes "ls" ∷ []) none [] built [] built_here
