-- ===== src/Seccomp/Instructions.antt =====
-- The instruction helpers of runeguard/seccomp/filter.py. `struct.pack("HBBI", …)` is written out
-- for a little-endian machine, as both supported ones are; each field is cut to its width, and
-- `Seccomp.Encoding` shows that no field of a built program is cut.
use Prim.Native.Nat.{bit_and, bit_or}
use runeguard.Prelude.{ℕ, ◌/◌, ◌%◌, List, [], ◌∷◌}

abbrev pub Bytes : Type 0
Bytes = List ℕ

abbrev pub bpf_ld : ℕ
bpf_ld = 0x00

abbrev pub bpf_jmp : ℕ
bpf_jmp = 0x05

abbrev pub bpf_ret : ℕ
bpf_ret = 0x06

abbrev pub bpf_w : ℕ
bpf_w = 0x00

abbrev pub bpf_abs : ℕ
bpf_abs = 0x20

abbrev pub bpf_jeq : ℕ
bpf_jeq = 0x10

abbrev pub seccomp_ret_allow : ℕ
seccomp_ret_allow = 0x7FFF0000

abbrev pub seccomp_ret_errno : ℕ
seccomp_ret_errno = 0x00050000

abbrev pub errno_eperm : ℕ
errno_eperm = 1

abbrev pub seccomp_data_nr_offset : ℕ
seccomp_data_nr_offset = 0

abbrev pub seccomp_data_args0_offset : ℕ
seccomp_data_args0_offset = 16

abbrev pub af_inet : ℕ
af_inet = 2

abbrev pub af_inet6 : ℕ
af_inet6 = 10

abbrev pub af_netlink : ℕ
af_netlink = 16

-- One `sock_filter` of the kernel, the `SockFilter` structure.
pub record SockFilter : Type 0 where
  pub code : ℕ
  pub jt : ℕ
  pub jf : ℕ
  pub k : ℕ

-- `struct.pack("HBBI", code, jt, jf, k)`
unfoldable pub pack : SockFilter → Bytes
pack i =
    (i.code % 256)
    ∷ (i.code / 256 % 256)
    ∷ (i.jt % 256)
    ∷ (i.jf % 256)
    ∷ (i.k % 256)
    ∷ (i.k / 256 % 256)
    ∷ (i.k / 65536 % 256)
    ∷ (i.k / 16777216 % 256)
    ∷ []

unfoldable pub bpf_stmt : ℕ → ℕ → SockFilter
bpf_stmt code k = record { code = code; jt = 0; jf = 0; k = k }

unfoldable pub bpf_jump : ℕ → ℕ → ℕ → ℕ → SockFilter
bpf_jump code k jt jf = record { code = code; jt = jt; jf = jf; k = k }

unfoldable pub ld_nr : SockFilter
unfolding bpf_stmt
ld_nr = bpf_stmt (bit_or (bit_or bpf_ld bpf_w) bpf_abs) seccomp_data_nr_offset

unfoldable pub ld_args0 : SockFilter
unfolding bpf_stmt
ld_args0 = bpf_stmt (bit_or (bit_or bpf_ld bpf_w) bpf_abs) seccomp_data_args0_offset

unfoldable pub jeq : ℕ → ℕ → ℕ → SockFilter
unfolding bpf_jump
jeq k jt jf = bpf_jump (bit_or (bit_or bpf_jmp bpf_jeq) bpf_w) k jt jf

unfoldable pub ret_allow : SockFilter
unfolding bpf_stmt
ret_allow = bpf_stmt bpf_ret seccomp_ret_allow

unfoldable pub ret_block : ℕ → SockFilter
unfolding bpf_stmt
ret_block errno = bpf_stmt bpf_ret (bit_or seccomp_ret_errno (bit_and errno 0xFFFF))
