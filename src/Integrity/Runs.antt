-- ===== src/Integrity/Runs.antt =====
-- A whole run of appends to one log of runeguard/integrity.py.
use runeguard.Prelude.{
  ℕ, ◌+◌, ◌≡◌, refl, ◌∙◌, Text, List, [], ◌∷◌, ◌++◌, length, Option, none, some, list_eq, nat_eq,
  option_eq, arith, All,
}
use native.Mathlib.Nat.{add-zero}
use runeguard.Prelude.Int.{ℤ, pos, int_eq}
use runeguard.Outcome.{Outcome, ok, ◌>>=◌}
use runeguard.Json.{Fields}
use runeguard.Integrity.Runtime.{Bytes, Runtime, IsLawful, IsPrinted}
use runeguard.Integrity.Envelope.{genesis_prev}
use runeguard.Integrity.Log.{TamperEvidentLog, line_of, iter_lines, append, fresh_log}
use runeguard.Integrity.Verify.{verify_log}
use runeguard.Integrity.Chain.{accepted, verify_log-accepts_iff}
use runeguard.Integrity.Growth.{IsAscii, IsTerminated, IsTerminated-append}
use runeguard.Integrity.Appending.{append-verify_log}

-- Acceptance does not depend on the expected head where it is met.
pub accepted_unexpected :
    (R : Runtime) (key : Option Bytes) (expected : Option Text) (start : ℤ) (prev_hash : Text)
    (lines : List Text) (count : ℕ) (head : Option Text)
    → verify_log R key expected start prev_hash lines ≡ ok (accepted count head)
    → verify_log R key none start prev_hash lines ≡ ok (accepted count head)
accepted_unexpected R key expected start prev_hash lines count head fine =
    let (es, reads, links, counted, last, _) =
      (verify_log-accepts_iff R key expected start prev_hash lines count head).0 fine in
    (verify_log-accepts_iff R key none start prev_hash lines count head).1
      (es, reads, links, counted, last, tt)

-- Any number of appends, each with its time.
pub write_all : Runtime → TamperEvidentLog → List (Text × Fields) → List Text → Outcome (List Text)
write_all R log [] lines = ok lines
write_all R log ((ts, payload) ∷ records) lines = do
  (envelope, longer) ← append R log ts payload lines
  write_all R log records longer

write_all-verify_log_from :
    (R : Runtime) (log : TamperEvidentLog) (records : List (Text × Fields)) (lines : List Text)
    (count : ℕ) (head : Option Text)
    → IsLawful R
    → IsAscii log.initial_prev_hash
    → All (λ (r : Text × Fields). All IsPrinted r.0) records
    → IsTerminated lines
    → verify_log R log.key none log.initial_seq log.initial_prev_hash lines
      ≡ ok (accepted count head)
    → (file : List Text) × (last : Option Text) × (write_all R log records lines ≡ ok file)
      × (verify_log R log.key none log.initial_seq log.initial_prev_hash file
          ≡ ok (accepted (count + length records) last))
unfolding write_all
write_all-verify_log_from R log [] lines count head L ascii printed terminated fine =
    (lines, head, refl, rw add-zero fine)
write_all-verify_log_from R log ((ts, payload) ∷ records) lines count head L ascii (now, later)
      terminated fine =
    let (envelope, hash, wrote, verified, _) =
      append-verify_log R log lines count head ts payload L ascii now terminated fine in
    let longer = lines ++ (line_of R envelope ∷ []) in
    let (file, last, written, result) =
      write_all-verify_log_from R log records longer (count + 1) (some hash) L ascii later
        (IsTerminated-append lines (R.dumps envelope))
        (accepted_unexpected R log.key (some hash) log.initial_seq log.initial_prev_hash longer _ _
          verified) in
    (file, last, rw wrote written, result ∙ ground arith)

-- However many records are appended to a new log, at whatever times, every append succeeds, and
-- the file is accepted with as many records as were appended.
pub write_all-verify_log :
    (R : Runtime) (key : Option Bytes) (records : List (Text × Fields))
    → IsLawful R
    → All (λ (r : Text × Fields). All IsPrinted r.0) records
    → (file : List Text) × (last : Option Text) × (write_all R (fresh_log key) records [] ≡ ok file)
      × (verify_log R key none (pos 0) genesis_prev file ≡ ok (accepted (length records) last))
unfolding iter_lines
write_all-verify_log R key records L printed =
    let (file, last, written, result) =
      write_all-verify_log_from R (fresh_log key) records [] 0 none L refl printed tt (
        (verify_log-accepts_iff R key none (pos 0) genesis_prev [] 0 none).1
          ([], tt, tt, refl, refl, tt)) in
    (file, last, written, result ∙ ground arith)
