-- ===== src/Tests/AuditLog.antt =====
-- Concrete audit logs of one and two records, for the theorems on runeguard/integrity.py.
use runeguard.Prelude.{
  ℕ, ◌+◌, ◌≡◌, ◌↔◌, ◌⊎◌, refl, ◌∙◌, strip, lstrip, rstrip, Text, codes, List, [], ◌∷◌, ◌++◌, length,
  All, Option, none, some, nat_eq, list_eq, arith,
}
use runeguard.Prelude.Int.{pos}
use runeguard.Outcome.{ok}
use runeguard.Json.{Json, str, object, Fields, end, field}
use runeguard.Integrity.Runtime.{IsPrinted}
use runeguard.Integrity.Envelope.{Envelope, genesis_prev, unwrap_payload}
use runeguard.Integrity.Log.{line_of, fresh_log, iter_lines, append}
use runeguard.Integrity.Verify.{verify_log}
use runeguard.Integrity.Chain.{Reads, Links, last_hash, Expects, accepted, verify_log-accepts_iff}
use runeguard.Integrity.Growth.{IsTerminated, IsTerminated-append}
use runeguard.Integrity.Appending.{append-verify_log}
use runeguard.Integrity.Runs.{accepted_unexpected, write_all, write_all-verify_log}
use runeguard.Integrity.Collisions.{Collision}
use runeguard.Integrity.Tampering.{hashed_payloads, verify_log_pins_payloads, verify_log-truncated}
use runeguard.Tests.Lawful.{toy_runtime, toy_runtime-IsLawful}

abbrev first_payload : Fields
first_payload = field (codes "tool_call") (str (codes "read_file")) end

abbrev second_payload : Fields
second_payload = field (codes "tool_call") (str (codes "shell")) end

abbrev noon : Text
noon = codes "2026-01-01T12:00:00+00:00"

abbrev one_o_clock : Text
one_o_clock = codes "2026-01-01T13:00:00+00:00"

noon-IsPrinted : All IsPrinted noon
noon-IsPrinted = omega arith

one_o_clock-IsPrinted : All IsPrinted one_o_clock
one_o_clock-IsPrinted = omega arith

genesis_prev-IsPrinted : All IsPrinted genesis_prev
genesis_prev-IsPrinted = omega arith

empty_log : verify_log toy_runtime none none (pos 0) genesis_prev [] ≡ ok (accepted 0 none)
unfolding iter_lines
empty_log =
    (verify_log-accepts_iff toy_runtime none none (pos 0) genesis_prev [] 0 none).1
      ([], tt, tt, refl, refl, tt)

-- What an append to a file adds to it.
abbrev Appended : Text → Fields → List Text → ℕ → Type 0
Appended ts payload lines count =
    (envelope : Json) × (hash : Text) × (append toy_runtime (fresh_log none) ts payload lines
      ≡ ok (envelope, lines ++ (line_of toy_runtime envelope ∷ [])))
    × (verify_log toy_runtime none (some hash) (pos 0) genesis_prev
          (lines ++ (line_of toy_runtime envelope ∷ []))
        ≡ ok (accepted (count + 1) (some hash)))
    × (unwrap_payload envelope ≡ object payload)

first_append : Appended noon first_payload [] 0
first_append =
    append-verify_log toy_runtime (fresh_log none) [] 0 none noon first_payload toy_runtime-IsLawful
      refl noon-IsPrinted tt empty_log

abbrev first_file : List Text
first_file = line_of toy_runtime first_append.0 ∷ []

abbrev first_hash : Text
first_hash = first_append.1

first_verified :
    verify_log toy_runtime none (some first_hash) (pos 0) genesis_prev first_file
    ≡ ok (accepted 1 (some first_hash))
first_verified = first_append.3

first_unexpected :
    verify_log toy_runtime none none (pos 0) genesis_prev first_file
    ≡ ok (accepted 1 (some first_hash))
first_unexpected =
    accepted_unexpected toy_runtime none (some first_hash) (pos 0) genesis_prev first_file 1
      (some first_hash) first_verified

first_broken : IsTerminated first_file
first_broken = IsTerminated-append [] (toy_runtime.dumps first_append.0)

append-verify_log_example : Appended one_o_clock second_payload first_file 1
append-verify_log_example =
    append-verify_log toy_runtime (fresh_log none) first_file 1 (some first_hash) one_o_clock
      second_payload toy_runtime-IsLawful refl one_o_clock-IsPrinted first_broken first_unexpected

second_append : Appended one_o_clock second_payload first_file 1
second_append =
    append-verify_log toy_runtime (fresh_log none) first_file 1 (some first_hash) one_o_clock
      second_payload toy_runtime-IsLawful refl one_o_clock-IsPrinted first_broken first_unexpected

abbrev second_line : Text
second_line = line_of toy_runtime second_append.0

second_unexpected :
    verify_log toy_runtime none none (pos 0) genesis_prev (first_file ++ (second_line ∷ []))
    ≡ ok (accepted 2 (some second_append.1))
second_unexpected =
    accepted_unexpected toy_runtime none (some second_append.1) (pos 0) genesis_prev
      (first_file ++ (second_line ∷ [])) 2 (some second_append.1) second_append.3

verify_log-truncated_example :
    (count : ℕ) × (head : Option Text) × (verify_log toy_runtime none none
        (pos 0)
        genesis_prev
        first_file
      ≡ ok (accepted count head))
verify_log-truncated_example =
    verify_log-truncated toy_runtime none (pos 0) genesis_prev first_file (second_line ∷ []) 2
      (some second_append.1) second_unexpected

verify_log-accepts_iff_example :
    (verify_log toy_runtime none none (pos 0) genesis_prev first_file
      ≡ ok (accepted 1 (some first_hash)))
    ↔ ((es : List Envelope) × Reads toy_runtime (iter_lines first_file) es
        × Links toy_runtime none (pos 0) genesis_prev es
        × (1 ≡ length es)
        × (some first_hash ≡ last_hash none es)
        × Expects none (some first_hash))
verify_log-accepts_iff_example =
    verify_log-accepts_iff toy_runtime none none (pos 0) genesis_prev first_file 1 (some first_hash)

verify_log-blank :
    (expected : Option Text) (lines : List Text)
    → verify_log toy_runtime none expected (pos 0) genesis_prev ([] ∷ lines)
      ≡ verify_log toy_runtime none expected (pos 0) genesis_prev lines
unfolding verify_log iter_lines strip lstrip rstrip list_eq nat_eq
verify_log-blank expected lines = refl

-- The file with a blank line at its head.
blank_verified :
    verify_log toy_runtime none (some first_hash) (pos 0) genesis_prev ([] ∷ first_file)
    ≡ ok (accepted 1 (some first_hash))
blank_verified = verify_log-blank (some first_hash) first_file ∙ first_verified

verify_log_pins_payloads_example :
    Collision toy_runtime none
    ⊎ (hashed_payloads toy_runtime (iter_lines first_file)
        ≡ hashed_payloads toy_runtime (iter_lines ([] ∷ first_file)))
verify_log_pins_payloads_example =
    verify_log_pins_payloads toy_runtime none toy_runtime-IsLawful (pos 0) genesis_prev first_hash
      first_file ([] ∷ first_file) 1 1 genesis_prev-IsPrinted first_verified blank_verified

write_all-verify_log_example :
    (file : List Text) × (last : Option Text) × (write_all toy_runtime
        (fresh_log none)
        ((noon, first_payload) ∷ (one_o_clock, second_payload) ∷ [])
        []
      ≡ ok file)
    × (verify_log toy_runtime none none (pos 0) genesis_prev file ≡ ok (accepted 2 last))
write_all-verify_log_example =
    write_all-verify_log toy_runtime none
      ((noon, first_payload) ∷ (one_o_clock, second_payload) ∷ []) toy_runtime-IsLawful
      (noon-IsPrinted, (one_o_clock-IsPrinted, tt))
