-- ===== src/Seccomp/Encoding.antt =====
-- The bytes of runeguard/seccomp/filter.py: what `program_to_filters` reads back from `build`.
use runeguard.Prelude.{
  Bool, true, false, contains, ℕ, ◌+◌, ◌<◌, ◌≡◌, refl, Text, some, List, [], ◌∷◌, ◌++◌, length, All,
  if◌then◌else◌, list_eq, nat_eq, arith,
}
use mathlib.Core.Option
use runeguard.Seccomp.Machine.{SyscallData, verdict}
use runeguard.Seccomp.Verdicts.{blocked, verdict-instructions}
use runeguard.Policy.Settings.{Policy, network_denied}
use runeguard.Seccomp.Instructions.{
  Bytes, seccomp_ret_allow, SockFilter, pack, ld_nr, ld_args0, jeq, ret_allow, ret_block,
}
use runeguard.Seccomp.Filter.{
  SyscallNumbers, syscall_nr, block_jumps, linear_block_filter, socket_family_block_filter,
  dangerous, instructions, join, build, program_to_filters,
}

-- Every field fits the width that `struct.pack` gives it.
pub record Fits (i : SockFilter) : Type 0 where
  pub code_u16 : i.code < 65536
  pub jt_u8 : i.jt < 256
  pub jf_u8 : i.jf < 256
  pub k_u32 : i.k < 4294967296

-- Structures whose fields fit are read back unchanged.
pub program_to_filters-join :
    (program : List SockFilter)
    → All Fits program
    → program_to_filters (join program) ≡ some program
unfolding program_to_filters join pack
program_to_filters-join [] h = refl
program_to_filters-join (i ∷ rest) (fits, more) =
    ground
      (arith, program_to_filters-join rest more, fits.code_u16, fits.jt_u8, fits.jf_u8, fits.k_u32)

abbrev NumbersFit : List ℕ → Type 0
NumbersFit = All (λ nr. nr < 4294967296)

All-append {ℓ κ} :
    {A : Type ℓ} (P : A → Type κ) (front back : List A)
    → All P back
    → All P front
    → All P (front ++ back)
All-append P [] back later now = later
All-append P (entry ∷ front) back later (here, now) = (here, All-append P front back later now)

block_jumps-Fits :
    (total index : ℕ) (nrs : List ℕ)
    → total < 256
    → total ≡ index + length nrs
    → NumbersFit nrs
    → All Fits (block_jumps total index nrs)
unfolding block_jumps jeq
block_jumps-Fits total index [] small h fit = tt
block_jumps-Fits total index (nr ∷ nrs) small h (fits, more) =
    (omega arith, block_jumps-Fits total (index + 1) nrs small (omega arith) more)

linear_block_filter-Fits :
    (nrs : List ℕ) → length nrs < 256 → NumbersFit nrs → All Fits (linear_block_filter nrs)
unfolding linear_block_filter ld_nr ret_allow ret_block
linear_block_filter-Fits nrs small fit = (
  omega arith,
  All-append Fits (block_jumps (length nrs) 0 nrs) _ (omega arith)
      (block_jumps-Fits (length nrs) 0 nrs small (omega arith) fit),
)

socket_family_block_filter-Fits :
    (socket : ℕ) → socket < 4294967296 → All Fits (socket_family_block_filter socket)
unfolding socket_family_block_filter ld_nr ld_args0 jeq ret_allow ret_block
socket_family_block_filter-Fits socket fits = omega arith

if-All {ℓ κ} :
    {A : Type ℓ} (P : A → Type κ) (b : Bool) (xs : List A) → All P xs → All P (if b then xs else [])
if-All P true xs h = h
if-All P false xs h = tt

instructions-Fits :
    (policy : Policy) (nrs : SyscallNumbers)
    → NumbersFit (nrs.socket ∷ dangerous nrs)
    → All Fits (instructions policy nrs)
unfolding instructions
instructions-Fits policy nrs (socket_fits, fit) =
    All-append Fits (linear_block_filter (dangerous nrs)) _
      (if-All Fits (network_denied policy) _
        (socket_family_block_filter-Fits nrs.socket socket_fits))
      (linear_block_filter-Fits (dangerous nrs) (omega arith) fit)

syscall_nr-NumbersFit :
    (machine : Text) (nrs : SyscallNumbers)
    → syscall_nr machine ≡ some nrs
    → NumbersFit (nrs.socket ∷ dangerous nrs)
unfolding syscall_nr
syscall_nr-NumbersFit machine nrs known = ground arith

-- On a supported architecture `build` succeeds, and the kernel is handed exactly the instructions
-- that it assembled: no field is cut by the packing.
pub program_to_filters-build :
    (policy : Policy) (machine : Text) (nrs : SyscallNumbers)
    → syscall_nr machine ≡ some nrs
    → (program : Bytes) × (build policy machine ≡ some program)
      × (program_to_filters program ≡ some (instructions policy nrs))
unfolding build
program_to_filters-build policy machine nrs known = (
  join (instructions policy nrs),
  rw (known, build),
  program_to_filters-join _
      (instructions-Fits policy nrs (syscall_nr-NumbersFit machine nrs known)),
)

-- Under every policy, one that denies the network included, the built program blocks the four
-- dangerous system calls and allows every other one.
pub build-verdict :
    (policy : Policy) (machine : Text) (nrs : SyscallNumbers) (d : SyscallData)
    → syscall_nr machine ≡ some nrs
    → Option.bind
        (Option.bind (build policy machine) program_to_filters)
        (λ program. verdict program d)
      ≡ some (if contains (dangerous nrs) d.nr then blocked else seccomp_ret_allow)
unfolding Option.bind
build-verdict policy machine nrs d known =
    let (program, built, read) = program_to_filters-build policy machine nrs known in
    rw (built, read) (verdict-instructions policy nrs d)
