-- ===== src/Seccomp/Machine.antt =====
-- What the kernel does with a filter: the documented meaning of the classic BPF instructions that
-- the program uses, on the `seccomp_data` of one system call. It is the specification against which
-- the built filters are judged.
use runeguard.Prelude.{
  ℕ, zero, suc, ◌%◌, Option, none, some, List, [], ◌∷◌, ◌==◌, if◌then◌else◌, nat_eq,
}
use runeguard.Seccomp.Instructions.{SockFilter}

pub record SyscallData : Type 0 where
  pub nr : ℕ
  pub arg0 : ℕ

-- A 32-bit load from `seccomp_data`: offset 0 is the number, offset 16 the low half of the first
-- argument.
unfoldable pub load : SyscallData → ℕ → Option ℕ
load d offset =
    if offset == 0 then some d.nr else if offset == 16 then some (d.arg0 % 4294967296) else none

-- `run skip acc program`: a jump forward passes over `skip` instructions. `none` is a program that
-- the kernel refuses: an unknown instruction, or an end with no return.
unfoldable pub run : SyscallData → ℕ → ℕ → List SockFilter → Option ℕ
run d skip acc [] = none
run d (suc skip) acc (i ∷ rest) = run d skip acc rest
run d zero acc (i ∷ rest) =
    let on_load : Option ℕ = elim (load d i.k) [ none ↦ none | some value ↦ run d 0 value rest ] in
    let on_jump = run d (if acc == i.k then i.jt else i.jf) acc rest in
    if i.code == 0x06
    then some i.k
    else if i.code == 0x20
    then on_load
    else if i.code == 0x15
    then on_jump
    else none

-- The verdict of a whole program.
unfoldable pub verdict : List SockFilter → SyscallData → Option ℕ
unfolding run load
verdict program d = run d 0 0 program
