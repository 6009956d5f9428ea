-- ===== src/Landlock/Access.antt =====
-- The rights of runeguard/core/landlock.py, as sets of bits.
use runeguard.Prelude.{ℕ, zero, suc, ◌+◌, ◌*◌, ◌/◌, ◌%◌, ◌^◌, ◌==◌, nat_eq, if◌then◌else◌}

-- `x | y` on the bits of a `c_uint64`.
unfoldable pub or_bits : ℕ → ℕ → ℕ → ℕ
or_bits zero x y = 0
or_bits (suc bits) x y =
    let rest = or_bits bits (x / 2) (y / 2) in (if x % 2 + y % 2 == 0 then 0 else 1) + 2 * rest

infixr 25 ◌∣◌
unfoldable pub ◌∣◌ : ℕ → ℕ → ℕ
unfolding or_bits
x ∣ y = or_bits 64 x y

-- `LANDLOCK_ACCESS_FS_...`
abbrev pub execute : ℕ
execute = 2 ^ 0

abbrev pub write_file : ℕ
write_file = 2 ^ 1

abbrev pub read_file : ℕ
read_file = 2 ^ 2

abbrev pub read_dir : ℕ
read_dir = 2 ^ 3

abbrev pub remove_dir : ℕ
remove_dir = 2 ^ 4

abbrev pub remove_file : ℕ
remove_file = 2 ^ 5

abbrev pub make_char : ℕ
make_char = 2 ^ 6

abbrev pub make_dir : ℕ
make_dir = 2 ^ 7

abbrev pub make_reg : ℕ
make_reg = 2 ^ 8

abbrev pub make_sock : ℕ
make_sock = 2 ^ 9

abbrev pub make_fifo : ℕ
make_fifo = 2 ^ 10

abbrev pub make_block : ℕ
make_block = 2 ^ 11

abbrev pub make_sym : ℕ
make_sym = 2 ^ 12

abbrev pub refer : ℕ
refer = 2 ^ 13

abbrev pub truncate : ℕ
truncate = 2 ^ 14

unfoldable pub read_access : ℕ
unfolding ◌∣◌
read_access = execute ∣ read_file ∣ read_dir

unfoldable pub write_access : ℕ
unfolding ◌∣◌
write_access =
    write_file ∣ remove_dir ∣ remove_file ∣ make_char ∣ make_dir ∣ make_reg ∣ make_sock ∣ make_fifo
    ∣ make_block ∣ make_sym ∣ refer ∣ truncate

unfoldable pub handled_access : ℕ
unfolding read_access write_access ◌∣◌
handled_access = read_access ∣ write_access
