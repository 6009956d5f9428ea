-- ===== src/Seccomp/Verdicts.antt =====
-- What the kernel answers to a system call under the filters of runeguard/seccomp/filter.py.
use runeguard.Prelude.{
  ℕ, suc, ◌+◌, ◌-◌, ◌%◌, ◌≡◌, refl, ap, ◌∙◌, append_assoc, ◌&&◌, some, List, [], ◌∷◌, ◌++◌, length,
  contains, ◌==◌, if◌then◌else◌, nat_eq, arith,
}
use native.Mathlib.Nat.{zero-add, suc-add}
use runeguard.Policy.Settings.{Policy}
use runeguard.Seccomp.Instructions.{
  SockFilter, ld_nr, ld_args0, jeq, ret_allow, ret_block, errno_eperm, af_inet, af_inet6,
  af_netlink, seccomp_ret_allow,
}
use runeguard.Seccomp.Filter.{
  SyscallNumbers, block_jumps, linear_block_filter, socket_family_block_filter, dangerous,
  instructions,
}
use runeguard.Seccomp.Machine.{SyscallData, load, run, verdict}

-- `SECCOMP_RET_ERRNO | EPERM`
abbrev pub blocked : ℕ
blocked = 0x00050001

module _ (d : SyscallData) where
  -- A jump over a whole list of instructions lands behind it.
  run-append :
      (n acc : ℕ) (xs ys : List SockFilter) → run d (length xs + n) acc (xs ++ ys) ≡ run d n acc ys
  unfolding run
  run-append n acc [] ys = rw zero-add
  run-append n acc (x ∷ xs) ys = rw suc-add (run-append n acc xs ys)

  run-jeq :
      (acc k jt jf : ℕ) (rest : List SockFilter)
      → run d 0 acc (jeq k jt jf ∷ rest) ≡ run d (if acc == k then jt else jf) acc rest
  unfolding run jeq nat_eq
  run-jeq acc k jt jf rest = refl

  run-ret_allow :
      (acc : ℕ) (rest : List SockFilter) → run d 0 acc (ret_allow ∷ rest) ≡ some seccomp_ret_allow
  unfolding run ret_allow nat_eq
  run-ret_allow acc rest = refl

  run-ret_block :
      (acc : ℕ) (rest : List SockFilter) → run d 0 acc (ret_block errno_eperm ∷ rest) ≡ some blocked
  unfolding run ret_block nat_eq
  run-ret_block acc rest = refl

  run-ld_nr : (acc : ℕ) (rest : List SockFilter) → run d 0 acc (ld_nr ∷ rest) ≡ run d 0 d.nr rest
  unfolding run ld_nr nat_eq load
  run-ld_nr acc rest = refl

  run-ld_args0 :
      (acc : ℕ) (rest : List SockFilter)
      → run d 0 acc (ld_args0 ∷ rest) ≡ run d 0 (d.arg0 % 4294967296) rest
  unfolding run ld_args0 nat_eq load
  run-ld_args0 acc rest = refl

-- The address families that the socket filter refuses.
abbrev pub refused_families : List ℕ
refused_families = af_inet ∷ af_inet6 ∷ af_netlink ∷ []

abbrev ending : List SockFilter
ending = ret_allow ∷ ret_block errno_eperm ∷ []

abbrev family_tests : List SockFilter
family_tests = jeq af_inet 3 0 ∷ jeq af_inet6 2 0 ∷ jeq af_netlink 1 0 ∷ ending

module _ (d : SyscallData) (family : ℕ) where
  run-families :
      run d 0 family family_tests
      ≡ some (if contains refused_families family then blocked else seccomp_ret_allow)
  run-families =
      let netlink = jeq af_netlink 1 0 in
      let inet6 = jeq af_inet6 2 0 in
      ground (
        arith,
        run-jeq d family af_inet 3 0 (inet6 ∷ netlink ∷ ending),
        run-jeq d family af_inet6 2 0 (netlink ∷ ending),
        run-jeq d family af_netlink 1 0 ending,
        run-append d 0 family (inet6 ∷ netlink ∷ ret_allow ∷ []) (ret_block errno_eperm ∷ []),
        run-append d 0 family (netlink ∷ ret_allow ∷ []) (ret_block errno_eperm ∷ []),
        run-append d 0 family (ret_allow ∷ []) (ret_block errno_eperm ∷ []),
        run-ret_allow d family (ret_block errno_eperm ∷ []),
        run-ret_block d family [],
      )

length-block_jumps :
    (total index : ℕ) (nrs : List ℕ) → length (block_jumps total index nrs) ≡ length nrs
unfolding block_jumps
length-block_jumps total index [] = refl
length-block_jumps total index (nr ∷ nrs) = ap suc (length-block_jumps total (index + 1) nrs)

module _ (d : SyscallData) (acc : ℕ) (rest : List SockFilter) where
  abbrev tail_of : List SockFilter → List SockFilter
  tail_of jumps = jumps ++ (ret_allow ∷ ret_block errno_eperm ∷ rest)

  -- A jump of `len + 1` from inside the table lands on the blocking return.
  run-to_block :
      (n : ℕ) (jumps : List SockFilter)
      → n ≡ length jumps + 1
      → run d n acc (tail_of jumps) ≡ some blocked
  run-to_block n jumps h = rw (h, run-append d 1 acc jumps) (unfold run in run-ret_block d acc rest)

  run-block_jumps :
      (total index : ℕ) (nrs : List ℕ)
      → total ≡ index + length nrs
      → run d 0 acc (tail_of (block_jumps total index nrs))
        ≡ some (if contains nrs acc then blocked else seccomp_ret_allow)
  unfolding block_jumps
  run-block_jumps total index [] h = run-ret_allow d acc _
  run-block_jumps total index (nr ∷ nrs) h =
      let jumps = block_jumps total (index + 1) nrs in
      let n = total - index - 1 + 1 in
      run-jeq d acc nr n 0 (tail_of jumps)
      ∙ ground (
        arith,
        run-block_jumps total (index + 1) nrs (omega arith),
        run-to_block n jumps (omega (arith, length-block_jumps total (index + 1) nrs)),
      )

-- The table filter blocks exactly the listed system calls, whatever follows it.
pub verdict-linear_block_filter :
    (nrs : List ℕ) (rest : List SockFilter) (d : SyscallData)
    → verdict (linear_block_filter nrs ++ rest) d
      ≡ some (if contains nrs d.nr then blocked else seccomp_ret_allow)
unfolding linear_block_filter verdict
verdict-linear_block_filter nrs rest d =
    run-ld_nr d 0 _ ∙ rw append_assoc (run-block_jumps d d.nr rest (length nrs) 0 nrs (omega arith))

-- Run by itself, the socket filter blocks the `socket` calls of the refused families only.
pub verdict-socket_family_block_filter :
    (socket : ℕ) (d : SyscallData)
    → verdict (socket_family_block_filter socket) d
      ≡ some (
          if d.nr == socket && contains refused_families (d.arg0 % 4294967296)
          then blocked
          else seccomp_ret_allow)
unfolding socket_family_block_filter verdict
verdict-socket_family_block_filter socket d =
    let families = ld_args0 ∷ family_tests in
    run-ld_nr d 0 (jeq socket 1 0 ∷ ret_allow ∷ families)
    ∙ ground (
      arith,
      run-jeq d d.nr socket 1 0 (ret_allow ∷ families),
      run-ret_allow d d.nr families,
      run-append d 0 d.nr (ret_allow ∷ []) families,
      run-ld_args0 d d.nr family_tests,
      run-families d (d.arg0 % 4294967296),
    )

-- The verdict of the program that `build` assembles, under every policy.
pub verdict-instructions :
    (policy : Policy) (nrs : SyscallNumbers) (d : SyscallData)
    → verdict (instructions policy nrs) d
      ≡ some (if contains (dangerous nrs) d.nr then blocked else seccomp_ret_allow)
unfolding instructions
verdict-instructions policy nrs d = verdict-linear_block_filter (dangerous nrs) _ d
