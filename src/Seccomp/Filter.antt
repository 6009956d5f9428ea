-- ===== src/Seccomp/Filter.antt =====
-- The class `SeccompFilter` of runeguard/seccomp/filter.py: `build` and the conversion of its bytes
-- back to the structures that are handed to the kernel. Installing the program (`apply`) is system
-- calls only.
use runeguard.Prelude.{
  ℕ, ◌+◌, ◌-◌, Text, codes, Option, none, some, List, [], ◌∷◌, ◌++◌, ◌==◌, if◌then◌else◌, list_eq,
  nat_eq, ◌*◌, length,
}
use runeguard.Policy.Settings.{Policy, network_denied}
use runeguard.Seccomp.Instructions.{
  Bytes, SockFilter, pack, ld_nr, ld_args0, jeq, ret_allow, ret_block, errno_eperm, af_inet,
  af_inet6, af_netlink,
}

-- One row of `_SYSCALL_NR`.
pub record SyscallNumbers : Type 0 where
  pub ptrace : ℕ
  pub kexec_load : ℕ
  pub reboot : ℕ
  pub mount : ℕ
  pub socket : ℕ

abbrev pub x86_64 : SyscallNumbers
x86_64 = record { ptrace = 101; kexec_load = 246; reboot = 169; mount = 165; socket = 41 }

abbrev pub aarch64 : SyscallNumbers
aarch64 = record { ptrace = 117; kexec_load = 104; reboot = 142; mount = 40; socket = 198 }

-- `_SYSCALL_NR.get(machine)`
unfoldable pub syscall_nr : Text → Option SyscallNumbers
syscall_nr machine =
    if machine == codes "x86_64"
    then some x86_64
    else if machine == codes "aarch64"
    then some aarch64
    else none

-- The loop of `_linear_block_filter`: `total` is `len(syscall_nrs)`.
unfoldable pub block_jumps : ℕ → ℕ → List ℕ → List SockFilter
block_jumps total index [] = []
block_jumps total index (nr ∷ nrs) =
    let remaining = total - index - 1 in
    jeq nr (remaining + 1) 0 ∷ block_jumps total (index + 1) nrs

unfoldable pub linear_block_filter : List ℕ → List SockFilter
linear_block_filter syscall_nrs =
    ld_nr
    ∷ (block_jumps (length syscall_nrs) 0 syscall_nrs ++ (ret_allow ∷ ret_block errno_eperm ∷ []))

unfoldable pub socket_family_block_filter : ℕ → List SockFilter
socket_family_block_filter sys_socket_nr =
    ld_nr
    ∷ jeq sys_socket_nr 1 0
    ∷ ret_allow
    ∷ ld_args0
    ∷ jeq af_inet 3 0
    ∷ jeq af_inet6 2 0
    ∷ jeq af_netlink 1 0
    ∷ ret_allow
    ∷ ret_block errno_eperm
    ∷ []

abbrev pub dangerous : SyscallNumbers → List ℕ
dangerous nrs = nrs.ptrace ∷ nrs.kexec_load ∷ nrs.reboot ∷ nrs.mount ∷ []

-- The instructions that `build` joins, for the numbers of one architecture.
unfoldable pub instructions : Policy → SyscallNumbers → List SockFilter
instructions policy nrs =
    linear_block_filter (dangerous nrs)
    ++ (if network_denied policy then socket_family_block_filter nrs.socket else [])

-- `b"".join(instructions)`
unfoldable pub join : List SockFilter → Bytes
join [] = []
join (i ∷ rest) = pack i ++ join rest

-- `none` is the `RuntimeError` for an unsupported architecture.
unfoldable pub build : Policy → Text → Option Bytes
build policy machine = elim (syscall_nr machine) [
  | none ↦ none
  | some nrs ↦ some (join (instructions policy nrs))
]

-- `from_buffer_copy` over whole structures; `none` is the `ValueError` for a broken length.
unfoldable pub program_to_filters : Bytes → Option (List SockFilter)
program_to_filters [] = some []
program_to_filters (c0 ∷ c1 ∷ jt ∷ jf ∷ k0 ∷ k1 ∷ k2 ∷ k3 ∷ rest) = elim (program_to_filters rest) [
  | none ↦ none
  | some filters ↦ some (
      record {
        code = c0 + 256 * c1;
        jt = jt;
        jf = jf;
        k = k0 + 256 * k1 + 65536 * k2 + 16777216 * k3;
      }
      ∷ filters)
]
program_to_filters _ = none
