-- ===== src/Integrity/Verify.antt =====
-- `verify_log` of runeguard/integrity.py.
use runeguard.Prelude.{
  ℕ, ◌+◌, Text, Bool, true, false, not, List, [], ◌∷◌, all, ltb, Option, none, some, ◌==◌, ◌&&◌,
  if◌then◌else◌, list_eq, nat_eq, option_eq,
}
use runeguard.Prelude.Int.{ℤ, suc_ℤ, int_eq}
use runeguard.Outcome.{Outcome, ok, raised, ◌>>=◌}
use runeguard.Json.{is_none}
use runeguard.Integrity.Runtime.{Bytes, Runtime}
use runeguard.Integrity.Envelope.{Envelope, PyInt, int_value, digest, legacy_digest, read_envelope}
use runeguard.Integrity.Log.{iter_lines}

-- The messages of a failed verification, with the values that they name.
pub data VerifyError : Type 0 where
  not_json : ℕ → VerifyError
  not_envelope : ℕ → VerifyError
  sequence_break : ℤ → PyInt → VerifyError
  unlinked : PyInt → VerifyError
  hash_mismatch : PyInt → VerifyError
  head_mismatch : Option Text → Text → VerifyError

-- `VerifyResult`. Its `ok` is the absence of an error, and `break_seq` is named by the error.
pub record VerifyResult : Type 0 where
  pub error : Option VerifyError
  pub count : ℕ
  pub head_hash : Option Text

-- `hmac.compare_digest` of two texts: both have to be ASCII.
unfoldable pub compare_digest : Text → Text → Outcome Bool
compare_digest a b =
    if all (λ c. ltb c 128) a && all (λ c. ltb c 128) b then ok (a == b) else raised

-- The two digests of one record, compared with its hash: the legacy form counts only where the
-- record has neither `ts` nor `mode`.
unfoldable pub check_hash : Runtime → Option Bytes → Envelope → Text → Outcome Bool
check_hash R key e prev_hash = do
  recomputed ← digest R key e.seq prev_hash e.payload e.ts e.mode
  legacy_recomputed ← legacy_digest R key e.seq prev_hash e.payload
  same ← compare_digest recomputed e.hash
  let legacy_form = is_none e.ts && is_none e.mode
  if same
      then ok true
      else if legacy_form
      then compare_digest legacy_recomputed e.hash
      else ok false

abbrev failure : VerifyError → ℕ → Option Text → Outcome VerifyResult
failure error count head = ok (record { error = some error; count = count; head_hash = head })

-- The test after the loop.
unfoldable pub check_head : Option Text → ℕ → Option Text → VerifyResult
check_head none count head = record { error = none; count = count; head_hash = head }
check_head (some expected) count head =
    if head == some expected
    then record { error = none; count = count; head_hash = head }
    else record { error = some (head_mismatch head expected); count = count; head_hash = head }

-- The tests of one record. A record that passes is handed to `next`.
unfoldable pub check_record :
    Runtime
    → Option Bytes
    → Envelope
    → Text
    → ℤ
    → ℕ
    → Option Text
    → Outcome VerifyResult
    → Outcome VerifyResult
check_record R key e prev_hash expected_seq count head next =
    if not (int_value e.seq == expected_seq)
    then failure (sequence_break expected_seq e.seq) count head
    else if not (e.prev_hash == prev_hash)
    then failure (unlinked e.seq) count head
    else do
      good ← check_hash R key e prev_hash
      if good then next else failure (hash_mismatch e.seq) count head

module _ (R : Runtime) (key : Option Bytes) (expected_head : Option Text) where
  -- The loop over the lines, with its variables `prev_hash`, `expected_seq`, `count` and `head`.
  -- `lineno` is `count + 1` throughout, since each round that goes on adds one to both.
  unfoldable pub verify_lines : List Text → Text → ℤ → ℕ → Option Text → Outcome VerifyResult
  unfolding check_record check_head
  verify_lines [] prev_hash expected_seq count head = ok (check_head expected_head count head)
  verify_lines (raw ∷ lines) prev_hash expected_seq count head = elim (R.loads raw) [
    | none ↦ failure (not_json (count + 1)) count head
    | some env ↦ elim (read_envelope env) [
      | none ↦ failure (not_envelope (count + 1)) count head
      | some e ↦
          check_record R key e prev_hash expected_seq count head
            (verify_lines lines e.hash (suc_ℤ expected_seq) (count + 1) (some e.hash))
    ]
  ]

-- `verify_log` on the lines of the file.
unfoldable pub verify_log :
    Runtime → Option Bytes → Option Text → ℤ → Text → List Text → Outcome VerifyResult
unfolding verify_lines
verify_log R key expected_head expected_start_seq expected_prev_hash lines =
    verify_lines R key expected_head (iter_lines lines) expected_prev_hash expected_start_seq 0 none
