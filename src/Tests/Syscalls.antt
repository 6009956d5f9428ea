-- ===== src/Tests/Syscalls.antt =====
-- Concrete programs and system calls, for the theorems on runeguard/seccomp/filter.py.
use mathlib.Core.Option
use runeguard.Prelude.{◌≡◌, refl, Text, codes, some, contains, if◌then◌else◌, nat_eq, list_eq}
use runeguard.Seccomp.Instructions.{Bytes, seccomp_ret_allow}
use runeguard.Seccomp.Filter.{
  x86_64, syscall_nr, dangerous, instructions, build, program_to_filters,
}
use runeguard.Seccomp.Machine.{SyscallData, verdict}
use runeguard.Seccomp.Verdicts.{blocked}
use runeguard.Seccomp.Encoding.{program_to_filters-build, build-verdict}
use runeguard.Tests.Settings.{offline}

-- `socket(AF_INET, …)` on x86-64.
abbrev internet_socket : SyscallData
internet_socket = record { nr = 41; arg0 = 2 }

abbrev laptop : Text
laptop = codes "x86_64"

syscall_nr-laptop : syscall_nr laptop ≡ some x86_64
unfolding syscall_nr list_eq nat_eq
syscall_nr-laptop = refl

program_to_filters-build_example :
    (program : Bytes) × (build offline laptop ≡ some program)
    × (program_to_filters program ≡ some (instructions offline x86_64))
program_to_filters-build_example = program_to_filters-build offline laptop x86_64 syscall_nr-laptop

-- The network is denied by the policy, and the call is allowed.
build-verdict_example :
    Option.bind
      (Option.bind (build offline laptop) program_to_filters)
      (λ program. verdict program internet_socket)
    ≡ some (if contains (dangerous x86_64) internet_socket.nr then blocked else seccomp_ret_allow)
build-verdict_example = build-verdict offline laptop x86_64 internet_socket syscall_nr-laptop
