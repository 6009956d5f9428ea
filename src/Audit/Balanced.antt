-- ===== src/Audit/Balanced.antt =====
-- The summary of runeguard/audit.py accounts for every blocked call.
use runeguard.Prelude.{
  ℕ, suc, ◌+◌, ◌≤◌, Text, codes, List, [], ◌∷◌, ◌==◌, list_eq, nat_eq, lower, strip, ◌≡◌, refl, inl,
  inr, arith, Bool-cases,
}
use mathlib.Core.Path.{subst}
use runeguard.Outcome.{ok, ◌>>=◌, >>=-cases}
use runeguard.Json.{Json, str, Fields, get, str_of}
use runeguard.Logger.{or_json}
use runeguard.Mcp.Messages.{get_or}
use runeguard.Integrity.Runtime.{Runtime}
use runeguard.Audit.{Counter, count_up, read_event}
use runeguard.Audit.Summary.{
  Summary, no_summary, summarize_event, summarize_lines, summarize_audit_log,
}

-- `sum(counter.values())`
abbrev pub sum_of : Counter → ℕ
sum_of [] = 0
sum_of ((key, n) ∷ counter) = n + sum_of counter

sum_of-count_up :
    (key : Text) (counter : Counter) → sum_of (count_up key counter) ≡ sum_of counter + 1
unfolding count_up
sum_of-count_up key [] = refl
sum_of-count_up key ((other, n) ∷ counter) = ground (arith, sum_of-count_up key counter)

sum_of-counted :
    (key : Text) (counter : Counter) (n : ℕ)
    → sum_of counter ≡ n
    → sum_of (count_up key counter) ≡ suc n
sum_of-counted key counter n h = omega (arith, sum_of-count_up key counter)

abbrev action_of : Fields → Json
action_of event =
    or_json (get (codes "tool_call") event) (get_or (codes "tool") (str (codes "<unknown>")) event)

-- Every blocked call is counted once by its tool and once by its reason, and no call is both
-- allowed and blocked.
abbrev pub IsBalanced : Summary → Type 0
IsBalanced s =
    (sum_of s.blocked_actions ≡ s.blocked)
    × (sum_of s.blocked_reasons ≡ s.blocked)
    × (s.allowed + s.blocked ≤ s.total)

module _ (show : Json → Text) where
  summarize_event-IsBalanced :
      (event : Fields) (s : Summary) → IsBalanced s → IsBalanced (summarize_event show event s)
  unfolding summarize_event
  summarize_event-IsBalanced event s (actions, reasons, total) =
      let decision = lower (str_of show (get_or (codes "decision") (str []) event)) in
      elim (Bool-cases (decision == codes "allow")) [
        | inl e ↦ rw e (actions, reasons, omega arith)
        | inr e ↦ elim (Bool-cases (decision == codes "block")) [
          | inl e' ↦
              rw (e, e')
                (
                  sum_of-counted (str_of show (action_of event)) s.blocked_actions s.blocked
                      actions,
                  sum_of-counted
                      (str_of show (get_or (codes "reason") (str (codes "<unknown>")) event))
                      s.blocked_reasons s.blocked reasons,
                  omega arith,
                )
          | inr e' ↦ rw (e, e') (actions, reasons, omega arith)
        ]
      ]

  summarize_lines-IsBalanced :
      (R : Runtime) (lines : List Text) (s result : Summary)
      → IsBalanced s
      → summarize_lines show R lines s ≡ ok result
      → IsBalanced result
  unfolding summarize_lines
  summarize_lines-IsBalanced R [] s result balanced h =
      let same : s ≡ result = cc in subst IsBalanced same balanced
  summarize_lines-IsBalanced R (raw ∷ lines) s result balanced h =
      elim (Bool-cases (strip raw == [])) [
        | inl blank ↦ summarize_lines-IsBalanced R lines s result balanced (ground arith)
        | inr full ↦
            let counted : (read_event R (strip raw) >>= λ event.
            summarize_lines show R lines (summarize_event show event s))
                ≡ ok result =
              ground arith in
            >>=-cases (read_event R (strip raw)) counted λ event h₁ h₂.
              summarize_lines-IsBalanced R lines (summarize_event show event s) result
                (summarize_event-IsBalanced event s balanced) h₂
      ]

  -- The summary of a log that can be read counts every blocked call once by its tool and once by
  -- its reason, and the allowed and the blocked calls are together at most all calls.
  pub summarize_audit_log-IsBalanced :
      (R : Runtime) (lines : List Text) (result : Summary)
      → summarize_audit_log show R lines ≡ ok result
      → IsBalanced result
  unfolding summarize_audit_log
  summarize_audit_log-IsBalanced R lines result h =
      summarize_lines-IsBalanced R lines no_summary result (refl, refl, omega arith) h
