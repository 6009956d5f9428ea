-- ===== src/Audit/Totals.antt =====
-- The numbers of the report of runeguard/audit.py add up.
use runeguard.Prelude.{
  ℕ, suc, ◌+◌, Text, codes, Bool, true, false, List, [], ◌∷◌, ◌==◌, ==_iff, list_eq, nat_eq,
  if◌then◌else◌, length, lower, ◌≡◌, ◌⊎◌, inl, inr, refl, sym, ◌∙◌, arith, Bool-cases,
}
use runeguard.Outcome.{ok, >>=-cases}
use mathlib.Core.Path.{subst}
use runeguard.Json.{Json, str, Fields, str_of}
use runeguard.Mcp.Messages.{get_or}
use runeguard.Integrity.Runtime.{Runtime}
use runeguard.Logger.{normalize_decision}
use runeguard.Audit.{
  Counter, count_up, count_of, read_jsonl, Tally, no_events, decision_of, tally_event, tally_events,
  decided_events, Report, report_of, build_report,
}

count_of-count_up :
    (key other : Text) (counter : Counter)
    → count_of key (count_up other counter)
      ≡ (if other == key then suc (count_of key counter) else count_of key counter)
unfolding count_of count_up
count_of-count_up key other [] = ground arith
count_of-count_up key other ((next, n) ∷ counter) = elim (Bool-cases (next == other)) [
  | inl e ↦ (let same = (==_iff next other).0 e in rw (e, same) (go (other == key) n))
  | inr e ↦
      rw (e, count_of-count_up key other counter) (apart (next == key) (other == key) refl refl e)
]
  where
    go :
        (b : Bool) (m : ℕ)
        → (if b then suc m else count_of key counter) ≡ (
            if b
            then suc (if b then m else count_of key counter)
            else (if b then m else count_of key counter))
    go true m = refl
    go false m = refl

    apart :
        (b c : Bool)
        → (next == key) ≡ b
        → (other == key) ≡ c
        → (next == other) ≡ false
        → (if b then n else (if c then suc (count_of key counter) else count_of key counter)) ≡ (
            if c
            then suc (if b then n else count_of key counter)
            else (if b then n else count_of key counter))
    apart true true p q e =
        let same : next ≡ other = (==_iff next key).0 p ∙ sym ((==_iff other key).0 q) in
        let equal = (==_iff next other).1 same in cc
    apart true false p q e = refl
    apart false true p q e = refl
    apart false false p q e = refl

-- What the three counts come to.
abbrev sum_of : Counter → ℕ
sum_of counter =
    count_of (codes "allow") counter
    + count_of (codes "block") counter
    + count_of (codes "audit") counter

normalize_decision-cases :
    (decision : Text)
    → (normalize_decision decision ≡ codes "allow")
      ⊎ ((normalize_decision decision ≡ codes "block")
          ⊎ (normalize_decision decision ≡ codes "audit"))
unfolding normalize_decision
normalize_decision-cases decision = ground (
  arith,
  ==_iff (lower decision) (codes "allow"),
  ==_iff (lower decision) (codes "block"),
  ==_iff (lower decision) (codes "audit"),
)

sum_of-count_up :
    (decision : Text) (counter : Counter)
    → (decision ≡ codes "allow") ⊎ ((decision ≡ codes "block") ⊎ (decision ≡ codes "audit"))
    → sum_of (count_up decision counter) ≡ suc (sum_of counter)
unfolding list_eq nat_eq
sum_of-count_up decision counter (inl e) = rw e (
    omega (
      arith,
      count_of-count_up (codes "allow") (codes "allow") counter,
      count_of-count_up (codes "block") (codes "allow") counter,
      count_of-count_up (codes "audit") (codes "allow") counter,
    ))
sum_of-count_up decision counter (inr (inl e)) = rw e (
    omega (
      arith,
      count_of-count_up (codes "allow") (codes "block") counter,
      count_of-count_up (codes "block") (codes "block") counter,
      count_of-count_up (codes "audit") (codes "block") counter,
    ))
sum_of-count_up decision counter (inr (inr e)) = rw e (
    omega (
      arith,
      count_of-count_up (codes "allow") (codes "audit") counter,
      count_of-count_up (codes "block") (codes "audit") counter,
      count_of-count_up (codes "audit") (codes "audit") counter,
    ))

module _ (show : Json → Text) where
  sum_of-tally_events :
      (events : List Fields) (tally : Tally)
      → sum_of (tally_events show events tally).decisions ≡ length events + sum_of tally.decisions
  unfolding tally_events tally_event decision_of
  sum_of-tally_events [] tally = omega arith
  sum_of-tally_events (event ∷ events) tally =
      let rest = sum_of-tally_events events (tally_event show event tally) in
      let here = sum_of-count_up (decision_of show event) tally.decisions (
        normalize_decision-cases
          (str_of show (get_or (codes "decision") (str (codes "audit")) event))) in
      omega (arith, rest, here)

  length-decided_events :
      (events : List Fields) → length (decided_events show events) ≡ length events
  unfolding decided_events
  length-decided_events [] = refl
  length-decided_events (event ∷ events) = omega (arith, length-decided_events events)

  report_of-total :
      (found : List Fields)
      → (report_of show found).total_events
        ≡ (report_of show found).allow_count
          + (report_of show found).block_count
          + (report_of show found).audit_count
  unfolding report_of count_of
  report_of-total found =
      omega (arith, length-decided_events found, sum_of-tally_events found no_events)

  -- In the report on any log that can be read, every event is counted once: the numbers of the
  -- allowed, blocked and audited decisions add up to the number of events, whatever decisions,
  -- unknown ones included, the records of the log name.
  pub build_report-total :
      (R : Runtime) (lines : List Text) (report : Report show)
      → build_report show R lines ≡ ok report
      → report.total_events ≡ report.allow_count + report.block_count + report.audit_count
  unfolding build_report
  build_report-total R lines report h = >>=-cases (read_jsonl R lines) h λ found e h'.
      let same : report_of show found ≡ report = cc in
      subst (λ (r : Report show). r.total_events ≡ r.allow_count + r.block_count + r.audit_count)
        same (report_of-total found)
