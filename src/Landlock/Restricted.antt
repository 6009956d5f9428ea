-- ===== src/Landlock/Restricted.antt =====
-- What restricts the child of `_fork_exec_with_landlock` (runeguard/core/landlock.py).
use runeguard.Prelude.{
  ℕ, Text, Bool, true, false, List, [], ◌∷◌, ◌==◌, contains, list_eq, nat_eq, if◌then◌else◌, Option,
  none, some, ◌≡◌, inl, inr, refl, sym, ap, Bool-cases, ==_iff, arith,
}
use runeguard.Prelude.Int.{ℤ, pos, negsuc, int_eq}
use runeguard.Policy.Settings.{Policy}
use runeguard.Policy.FilePath.{FilePath}
use runeguard.Effects.{done, Action, pure, done-cases, pure-done}
use runeguard.ChildEnv.{Env, filter_child_env}
use runeguard.Landlock.Access.{◌∣◌, read_access, write_access, handled_access}
use runeguard.Landlock.{
  Call, created, opened, added, no_new_privs, restricted, closed, entered, executed, Calls, Kernel,
  closing, noted, opened_path, add_rule, add_path_rule, writable_source, add_resolved, add_writable,
  restrict, create_ruleset, fill_ruleset, apply_landlock, chdir, execvpe, run_child,
}

-- Rules are added to a ruleset, each on a path and with rights as the predicate says, each through
-- a descriptor that is opened for it and closed behind it.
pub data AddsRules (ruleset_fd : ℤ) (P : FilePath → ℕ → Type 0) : Calls → Calls → Type 0 where
  no_rule : (calls : Calls) → AddsRules ruleset_fd P calls calls
  next_rule :
      (calls before : Calls) (path : FilePath) (access : ℕ) (fd : ℤ)
      → P path access
      → AddsRules ruleset_fd P calls before
      → AddsRules ruleset_fd P calls
          (closed fd ∷ added ruleset_fd access fd ∷ opened path fd ∷ before)

noted-done :
    (call : Call) (result : ℤ) (calls calls' : Calls)
    → noted call result calls ≡ (done tt, calls')
    → call ∷ calls ≡ calls'
unfolding noted
noted-done call result calls calls' h = elim (Bool-cases (result == pos 0)) [
  | inl e ↦ cc
  | inr e ↦ cc
]

closing-done :
    {A : Type 0} (fd : ℤ) (action : Action Calls A) (calls calls' : Calls) (a : A)
    → closing fd action calls ≡ (done a, calls')
    → (before : Calls) × (action calls ≡ (done a, before)) × (calls' ≡ closed fd ∷ before)
unfolding closing
closing-done fd action calls calls' a h =
    ((action calls).1, ap (λ x. (x.0, (action calls).1)) h, sym (ap (λ x. x.1) h))

listed_first : (path : Text) (paths : List Text) → contains (path ∷ paths) path ≡ true
listed_first path paths = ground (arith, ==_iff path path)

listed_later :
    (path other : Text) (paths : List Text)
    → contains paths other ≡ true
    → contains (path ∷ paths) other ≡ true
listed_later path other paths h = ground (arith)

module _ (kernel : Kernel) where
  opened_path-done :
      (path : FilePath) (calls calls' : Calls) (fd : ℤ)
      → opened_path kernel path calls ≡ (done fd, calls')
      → calls' ≡ opened path fd ∷ calls
  unfolding opened_path
  opened_path-done path calls calls' fd h = go (kernel.open_path calls path) refl
    where
      go :
          (found : Option ℤ) → kernel.open_path calls path ≡ found → calls' ≡ opened path fd ∷ calls
      go none e = cc
      go (some other) e =
          let (same, e') = pure-done other fd (opened path other ∷ calls) calls' (cc) in cc

  add_path_rule-done :
      (ruleset_fd : ℤ) (path : FilePath) (access : ℕ) (calls calls' : Calls)
      → add_path_rule kernel ruleset_fd path access calls ≡ (done tt, calls')
      → (fd : ℤ) × (calls' ≡ closed fd ∷ added ruleset_fd access fd ∷ opened path fd ∷ calls)
  unfolding add_path_rule add_rule
  add_path_rule-done ruleset_fd path access calls calls' h =
      done-cases (opened_path kernel path) _ calls h λ fd calls₁ h₁ h₂.
        let (before, h₃, e) =
          closing-done fd (add_rule kernel ruleset_fd access fd) calls₁ calls' tt h₂ in
        let e₁ =
          noted-done (added ruleset_fd access fd) (kernel.add_rule calls₁ ruleset_fd access fd)
            calls₁ before h₃ in
        let e₂ = opened_path-done path calls calls₁ fd h₁ in (fd, cc)

  module _ (policy : Policy) (workspace filtered : FilePath) where
    -- Reading and writing, at what a writable path of the policy resolves to.
    abbrev pub IsGranted : FilePath → ℕ → Type 0
    IsGranted path access =
        (writable_path : Text) × (calls : Calls) × (contains policy.writable_paths writable_path
          ≡ true)
        × (kernel.resolve_strict calls (writable_source kernel workspace writable_path) ≡ some path)
        × (access ≡ read_access ∣ write_access)

    add_rule-AddsRules :
        (ruleset_fd : ℤ) (path : FilePath) (access : ℕ) (calls before calls' : Calls)
        → IsGranted path access
        → AddsRules ruleset_fd IsGranted calls before
        → add_path_rule kernel ruleset_fd path access before ≡ (done tt, calls')
        → AddsRules ruleset_fd IsGranted calls calls'
    add_rule-AddsRules ruleset_fd path access calls before calls' granted adds h =
        let (fd, e) = add_path_rule-done ruleset_fd path access before calls' h in
        rw e (next_rule calls before path access fd granted adds)

    -- The paths that are left to the loop are paths of the policy.
    add_writable-AddsRules :
        (ruleset_fd : ℤ) (paths : List Text) (calls before calls' : Calls)
        → ((path : Text) → contains paths path ≡ true → contains policy.writable_paths path ≡ true)
        → AddsRules ruleset_fd IsGranted calls before
        → add_writable kernel ruleset_fd workspace paths before ≡ (done tt, calls')
        → AddsRules ruleset_fd IsGranted calls calls'
    unfolding add_writable add_resolved
    add_writable-AddsRules ruleset_fd [] calls before calls' within adds h =
        let (_, e) = pure-done tt tt before calls' h in rw (sym e) adds
    add_writable-AddsRules ruleset_fd (path ∷ paths) calls before calls' within adds h =
        done-cases
          (λ now.
            (if kernel.exists now (writable_source kernel workspace path)
                then add_resolved kernel ruleset_fd
                    (kernel.resolve_strict now (writable_source kernel workspace path))
                else pure tt)
              now)
          _ before h
          λ _ middle h₁ h₂.
            add_writable-AddsRules ruleset_fd paths calls middle calls'
              (λ other listed. within other (listed_later path other paths listed))
              (step (kernel.exists before (writable_source kernel workspace path))
                (kernel.resolve_strict before (writable_source kernel workspace path)) refl middle
                h₁)
              h₂
      where
        step :
            (exists : Bool) (found : Option FilePath)
            → kernel.resolve_strict before (writable_source kernel workspace path) ≡ found
            → (middle : Calls)
            → (if exists then add_resolved kernel ruleset_fd found else pure tt) before
              ≡ (done tt, middle)
            → AddsRules ruleset_fd IsGranted calls middle
        step false found e middle h₁ =
            let (_, e') = pure-done tt tt before middle h₁ in rw (sym e') adds
        step true none e middle h₁ = cc
        step true (some resolved) e middle h₁ =
            add_rule-AddsRules ruleset_fd resolved (read_access ∣ write_access) calls before middle
              (path, before, within path (listed_first path paths), e, refl) adds h₁

    create_ruleset-done :
        (calls calls' : Calls) (fd : ℤ)
        → create_ruleset kernel calls ≡ (done fd, calls')
        → calls' ≡ created handled_access fd ∷ calls
    unfolding create_ruleset
    create_ruleset-done calls calls' fd h = go (kernel.create_ruleset calls handled_access) refl
      where
        go :
            (result : ℤ)
            → kernel.create_ruleset calls handled_access ≡ result
            → calls' ≡ created handled_access fd ∷ calls
        go (negsuc n) e = cc
        go (pos n) e =
            let (same, e') =
              pure-done (pos n) fd (created handled_access (pos n) ∷ calls) calls' cc in
            cc

    restrict-done :
        (ruleset_fd : ℤ) (calls calls' : Calls)
        → restrict kernel ruleset_fd calls ≡ (done tt, calls')
        → calls' ≡ restricted ruleset_fd ∷ no_new_privs ∷ calls
    unfolding restrict
    restrict-done ruleset_fd calls calls' h =
        done-cases (λ now. noted no_new_privs (kernel.set_no_new_privs now) now) _ calls h
          λ _ calls₁ h₁ h₂.
            let e = noted-done no_new_privs (kernel.set_no_new_privs calls) calls calls₁ h₁ in
            let e' =
              noted-done (restricted ruleset_fd) (kernel.restrict_self calls₁ ruleset_fd) calls₁
                calls' h₂ in
            cc

    -- The calls of a process that has restricted itself: a ruleset was created that handles every
    -- right, the filtered copy may be read, the rules behind that are as granted, no new
    -- privileges can be gained, and the process is under the ruleset. Every descriptor is closed.
    abbrev pub Restrained : Calls → Calls → Type 0
    Restrained calls calls' =
        (ruleset_fd : ℤ) × (fd : ℤ) × (before : Calls) × AddsRules ruleset_fd IsGranted
          (closed fd
            ∷ added ruleset_fd read_access fd
            ∷ opened filtered fd
            ∷ created handled_access ruleset_fd
            ∷ calls)
          before
        × (calls' ≡ closed ruleset_fd ∷ restricted ruleset_fd ∷ no_new_privs ∷ before)

    fill_ruleset-done :
        (ruleset_fd : ℤ) (calls calls' : Calls)
        → fill_ruleset kernel policy workspace filtered ruleset_fd calls ≡ (done tt, calls')
        → (fd : ℤ) × (before : Calls) × AddsRules ruleset_fd IsGranted
            (closed fd ∷ added ruleset_fd read_access fd ∷ opened filtered fd ∷ calls)
            before
          × (calls' ≡ restricted ruleset_fd ∷ no_new_privs ∷ before)
    unfolding fill_ruleset
    fill_ruleset-done ruleset_fd calls calls' h =
        done-cases (add_path_rule kernel ruleset_fd filtered read_access) _ calls h
          λ _ calls₁ h₁ h₂.
            done-cases (add_writable kernel ruleset_fd workspace policy.writable_paths) _ calls₁ h₂
              λ _ calls₂ h₃ h₄.
                let (fd, e) = add_path_rule-done ruleset_fd filtered read_access calls calls₁ h₁ in
                let adds =
                  add_writable-AddsRules ruleset_fd policy.writable_paths calls₁ calls₁ calls₂
                    (λ path listed. listed) (no_rule calls₁) h₃ in
                (fd, calls₂, rw (sym e) adds, restrict-done ruleset_fd calls₂ calls' h₄)

    apply_landlock-Restrained :
        (calls calls' : Calls)
        → apply_landlock kernel policy workspace filtered calls ≡ (done tt, calls')
        → Restrained calls calls'
    unfolding apply_landlock
    apply_landlock-Restrained calls calls' h = elim (Bool-cases kernel.has_libc) [
      | inr missing ↦ cc
      | inl found ↦
          done-cases (create_ruleset kernel)
            (λ ruleset_fd.
              closing ruleset_fd (fill_ruleset kernel policy workspace filtered ruleset_fd))
            calls {w' = calls'} (cc)
            λ ruleset_fd calls₁ h₁ h₂.
              let (inner, h₃, e) =
                closing-done ruleset_fd (fill_ruleset kernel policy workspace filtered ruleset_fd)
                  calls₁ calls' tt h₂ in
              let (fd, before, adds, e') = fill_ruleset-done ruleset_fd calls₁ inner h₃ in
              (
                ruleset_fd,
                fd,
                before,
                rw (sym (create_ruleset-done calls calls₁ ruleset_fd h₁)) adds,
                cc,
              )
    ]

    chdir-done :
        (calls calls' : Calls)
        → chdir kernel filtered calls ≡ (done tt, calls')
        → calls' ≡ entered filtered ∷ calls
    unfolding chdir
    chdir-done calls calls' h = elim (Bool-cases (kernel.chdir calls filtered)) [
      | inl moved ↦ cc
      | inr stays ↦ cc
    ]

    execvpe-done :
        (argv : List Text) (env : Env) (calls calls' : Calls)
        → execvpe kernel argv env calls ≡ (done tt, calls')
        → calls' ≡ executed argv env ∷ calls
    unfolding execvpe
    execvpe-done [] env calls calls' h = cc
    execvpe-done (program ∷ arguments) env calls calls' h =
        elim (Bool-cases (kernel.execvpe calls (program ∷ arguments) env)) [
          | inl starts ↦ cc
          | inr stays ↦ cc
        ]

    -- Where the child starts the command, with the filtered environment, it stands in the filtered
    -- copy of the workspace and has restricted itself before: every right is handled, the first
    -- rule lets the copy be read, the others are on what a writable path of the policy resolves to,
    -- no new privileges can be gained, and every descriptor that was opened for this is closed.
    pub run_child-Restrained :
        (argv : List Text) (calls calls' : Calls)
        → run_child kernel argv policy workspace filtered calls ≡ (done tt, calls')
        → (before : Calls) × Restrained calls before
          × (calls'
              ≡ executed argv (filter_child_env policy kernel.environ) ∷ entered filtered ∷ before)
    unfolding run_child
    run_child-Restrained argv calls calls' h =
        done-cases (apply_landlock kernel policy workspace filtered) _ calls h λ _ calls₁ h₁ h₂.
          done-cases (chdir kernel filtered) _ calls₁ h₂ λ _ calls₂ h₃ h₄.
            let moved = chdir-done calls₁ calls₂ h₃ in
            let starts =
              execvpe-done argv (filter_child_env policy kernel.environ) calls₂ calls' h₄ in
            (calls₁, apply_landlock-Restrained calls calls₁ h₁, cc)
