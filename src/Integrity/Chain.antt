-- ===== src/Integrity/Chain.antt =====
-- The specification of `verify_log` (runeguard/integrity.py): a chain of envelopes, and the proof
-- that a log is accepted exactly when its lines hold such a chain.
use runeguard.Prelude.{
  ℕ, ◌+◌, ◌≡◌, ◌≢◌, ◌↔◌, refl, ◌∙◌, ap, Text, true, List, [], ◌∷◌, length, Option, none, some,
  list_eq, nat_eq, option_eq, arith, Option-cases, inl, inr, sym,
}
use native.Mathlib.Nat.{add-zero}
use runeguard.Prelude.Int.{ℤ, suc_ℤ, int_eq}
use runeguard.Outcome.{Outcome, ok}
use runeguard.Integrity.Runtime.{Bytes, Runtime}
use runeguard.Integrity.Envelope.{Envelope, int_value, read_envelope}
use runeguard.Integrity.Log.{iter_lines}
use runeguard.Integrity.Verify.{
  VerifyResult, check_hash, check_head, check_record, verify_lines, verify_log,
}

-- The envelopes of the lines, if every line holds one.
unfoldable pub read_line : Runtime → Text → Option Envelope
read_line R line = elim (R.loads line) [ none ↦ none | some env ↦ read_envelope env ]

-- The lines hold the envelopes, one each.
abbrev pub Reads : Runtime → List Text → List Envelope → Type 0
Reads R [] [] = Unit
Reads R (line ∷ lines) (e ∷ es) = (read_line R line ≡ some e) × Reads R lines es
Reads R [] (e ∷ es) = ⊥
Reads R (line ∷ lines) [] = ⊥

-- Each envelope has the next sequence number, names the hash of the one before it, and has a hash
-- that its contents give.
abbrev pub Links : Runtime → Option Bytes → ℤ → Text → List Envelope → Type 0
Links R key seq prev_hash [] = Unit
Links R key seq prev_hash (e ∷ es) =
    (int_value e.seq ≡ seq)
    × (e.prev_hash ≡ prev_hash)
    × (check_hash R key e prev_hash ≡ ok true)
    × Links R key (suc_ℤ seq) e.hash es

-- The hash of the last envelope, or `head` where there is none.
abbrev pub last_hash : Option Text → List Envelope → Option Text
last_hash head [] = head
last_hash head (e ∷ es) = last_hash (some e.hash) es

-- The expectation of the caller, if there is one, is met.
abbrev pub Expects : Option Text → Option Text → Type 0
Expects none head = Unit
Expects (some expected) head = head ≡ some expected

-- A result that reports success with the given count and head.
abbrev pub accepted : ℕ → Option Text → VerifyResult
accepted count head = record { error = none; count = count; head_hash = head }

check_head-eq_accepted :
    (expected : Option Text) (count : ℕ) (head : Option Text) (r : VerifyResult)
    → check_head expected count head ≡ r
    → r.error ≡ none
    → (r ≡ accepted count head) × Expects expected head
unfolding check_head
check_head-eq_accepted none count head r h fine = ground arith
check_head-eq_accepted (some x) count head r h fine = ground arith

check_head_of_Expects :
    (expected : Option Text) (count : ℕ) (head : Option Text)
    → Expects expected head
    → check_head expected count head ≡ accepted count head
unfolding check_head
check_head_of_Expects none count head h = refl
check_head_of_Expects (some x) count head h = ground arith

module _ (R : Runtime) (key : Option Bytes) where
  check_record-eq_accepted :
      (e : Envelope) (prev_hash : Text) (seq : ℤ) (count : ℕ) (head : Option Text)
      (next : Outcome VerifyResult) (r : VerifyResult)
      → check_record R key e prev_hash seq count head next ≡ ok r
      → r.error ≡ none
      → (int_value e.seq ≡ seq)
        × (e.prev_hash ≡ prev_hash)
        × (check_hash R key e prev_hash ≡ ok true)
        × (next ≡ ok r)
  unfolding check_record
  check_record-eq_accepted e prev_hash seq count head next r h fine = ground arith

  check_record_of_link :
      (e : Envelope) (prev_hash : Text) (seq : ℤ) (count : ℕ) (head : Option Text)
      (next : Outcome VerifyResult)
      → int_value e.seq ≡ seq
      → e.prev_hash ≡ prev_hash
      → check_hash R key e prev_hash ≡ ok true
      → check_record R key e prev_hash seq count head next ≡ next
  unfolding check_record
  check_record_of_link e prev_hash seq count head next same linked good = ground arith

  module _ (expected : Option Text) where
    verify_lines-cons :
        (line : Text) (lines : List Text) (prev_hash : Text) (seq : ℤ) (count : ℕ)
        (head : Option Text) (e : Envelope)
        → read_line R line ≡ some e
        → verify_lines R key expected (line ∷ lines) prev_hash seq count head
          ≡ check_record R key e prev_hash seq count head
              (verify_lines R key expected lines e.hash (suc_ℤ seq) (count + 1) (some e.hash))
    unfolding verify_lines read_line
    verify_lines-cons line lines prev_hash seq count head e h = ground arith

    verify_lines-unread :
        (line : Text) (lines : List Text) (prev_hash : Text) (seq : ℤ) (count : ℕ)
        (head : Option Text) (r : VerifyResult)
        → read_line R line ≡ none
        → verify_lines R key expected (line ∷ lines) prev_hash seq count head ≡ ok r
        → r.error ≢ none
    unfolding verify_lines read_line
    verify_lines-unread line lines prev_hash seq count head r h got = ground arith

    -- An accepted run over the lines has read a chain.
    verify_lines-Links :
        (lines : List Text) (prev_hash : Text) (seq : ℤ) (count : ℕ) (head : Option Text)
        (r : VerifyResult)
        → verify_lines R key expected lines prev_hash seq count head ≡ ok r
        → r.error ≡ none
        → (es : List Envelope) × Reads R lines es
          × Links R key seq prev_hash es
          × (r ≡ accepted (count + length es) (last_hash head es))
          × Expects expected (last_hash head es)
    verify_lines-Links [] prev_hash seq count head r h fine =
        let (result, expects) =
          check_head-eq_accepted expected count head r (unfold verify_lines in cc) fine in
        ([], tt, tt, result ∙ rw add-zero, expects)
    verify_lines-Links (line ∷ lines) prev_hash seq count head r h fine =
        elim (Option-cases (read_line R line)) [
          | inl unread ↦
              absurd (verify_lines-unread line lines prev_hash seq count head r unread h fine)
          | inr (e, read) ↦
              let (same, linked, good, next) =
                check_record-eq_accepted e prev_hash seq count head _ r
                  (sym (verify_lines-cons line lines prev_hash seq count head e read) ∙ h) fine in
              let (es, reads, links, result, expects) =
                verify_lines-Links lines e.hash (suc_ℤ seq) (count + 1) (some e.hash) r next fine in
              (e ∷ es, (read, reads), (same, linked, good, links), result ∙ ground arith, expects)
        ]

    -- Lines that hold a chain are accepted.
    verify_lines_of_Links :
        (lines : List Text) (es : List Envelope) (prev_hash : Text) (seq : ℤ) (count : ℕ)
        (head : Option Text)
        → Reads R lines es
        → Links R key seq prev_hash es
        → Expects expected (last_hash head es)
        → verify_lines R key expected lines prev_hash seq count head
          ≡ ok (accepted (count + length es) (last_hash head es))
    verify_lines_of_Links [] [] prev_hash seq count head reads links expects =
        unfold verify_lines in rw (check_head_of_Expects expected count head expects, add-zero)
    verify_lines_of_Links (line ∷ lines) (e ∷ es) prev_hash seq count head (read, reads)
          (same, linked, good, links) expects =
        verify_lines-cons line lines prev_hash seq count head e read
        ∙ check_record_of_link e prev_hash seq count head _ same linked good
        ∙ verify_lines_of_Links lines es e.hash (suc_ℤ seq) (count + 1) (some e.hash) reads links
            expects
        ∙ ground arith
    verify_lines_of_Links [] (e ∷ es) prev_hash seq count head reads links expects = absurd reads
    verify_lines_of_Links (line ∷ lines) [] prev_hash seq count head reads links expects =
        absurd reads

-- `verify_log` accepts a file, with a count and a head, exactly when the lines that are not blank
-- hold a chain of that many envelopes from the expected start, the head is the hash of the last
-- one, and an expected head, if there is one, is that hash.
pub verify_log-accepts_iff :
    (R : Runtime) (key : Option Bytes) (expected : Option Text) (start : ℤ) (prev_hash : Text)
    (lines : List Text) (count : ℕ) (head : Option Text)
    → (verify_log R key expected start prev_hash lines ≡ ok (accepted count head)) ↔ (
        (es : List Envelope) × Reads R (iter_lines lines) es
        × Links R key start prev_hash es
        × (count ≡ length es)
        × (head ≡ last_hash none es)
        × Expects expected head)
unfolding verify_log
verify_log-accepts_iff R key expected start prev_hash lines count head = (
  λ h.
      let (es, reads, links, result, expects) =
        verify_lines-Links R key expected (iter_lines lines) prev_hash start 0 none _ h refl in
      let same_head : head ≡ last_hash none es = ap (λ (r : VerifyResult). r.head_hash) result in
      let same_count : count ≡ 0 + length es = ap (λ (r : VerifyResult). r.count) result in
      (es, reads, links, omega arith, same_head, rw same_head expects),
  λ h.
      let (es, reads, links, counted, last, expects) = h in
      verify_lines_of_Links R key expected (iter_lines lines) es prev_hash start 0 none reads links
        (rw (← last) expects)
      ∙ ground arith,
)
