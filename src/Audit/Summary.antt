-- ===== src/Audit/Summary.antt =====
-- The summaries of runeguard/audit.py: `summarize_audit_log`, its text, and the summary for a pull
-- request.
use runeguard.Prelude.{
  ℕ, suc, Text, codes, Bool, false, ◌&&◌, List, [], ◌∷◌, ◌++◌, ◌==◌, contains, drop, length,
  list_eq, lower, map, nat_eq, if◌then◌else◌, starts_with, strip, take,
}
use runeguard.Prelude.Int.{nat_text}
use runeguard.Outcome.{Outcome, ok, ◌>>=◌}
use runeguard.Json.{Json, str, Fields, get, truthy, str_of}
use runeguard.Integrity.Runtime.{Runtime}
use runeguard.Logger.{or_json}
use runeguard.Mcp.Messages.{get_or}
use runeguard.Redaction.{redact_text}
use runeguard.Audit.{Counter, count_up, most_common, read_event, md, decision_of, Report}
use runeguard.DiffRisk.{insert_text}
use runeguard.Mcp.Inspecting.{join_with}

-- The dict that `summarize_audit_log` returns.
pub record Summary : Type 0 where
  pub total : ℕ
  pub allowed : ℕ
  pub blocked : ℕ
  pub blocked_actions : Counter
  pub blocked_reasons : Counter

abbrev pub no_summary : Summary
no_summary = record {
  total = 0;
  allowed = 0;
  blocked = 0;
  blocked_actions = [];
  blocked_reasons = [];
}

-- `show` is Python's `str`; a key of a counter that is no text stands as its text.
module _ (show : Json → Text) where
  unfoldable pub summarize_event : Fields → Summary → Summary
  unfolding count_up or_json
  summarize_event event summary =
      let decision = lower (str_of show (get_or (codes "decision") (str []) event)) in
      let counted = record summary { total = suc summary.total } in
      if decision == codes "allow"
      then record counted { allowed = suc summary.allowed }
      else if decision == codes "block"
      then record counted {
        blocked = suc summary.blocked;
        blocked_actions =
            count_up
              (str_of show (
                or_json (get (codes "tool_call") event)
                  (get_or (codes "tool") (str (codes "<unknown>")) event)))
              summary.blocked_actions;
        blocked_reasons =
            count_up (str_of show (get_or (codes "reason") (str (codes "<unknown>")) event))
              summary.blocked_reasons;
      }
      else counted

  -- The loop of `summarize_audit_log`.
  unfoldable pub summarize_lines : Runtime → List Text → Summary → Outcome Summary
  unfolding read_event summarize_event
  summarize_lines R [] summary = ok summary
  summarize_lines R (raw ∷ lines) summary =
      let skipped = summarize_lines R lines summary in
      let counted = (do
        event ← read_event R (strip raw)
        summarize_lines R lines (summarize_event event summary)) in
      if strip raw == [] then skipped else counted

  unfoldable pub summarize_audit_log : Runtime → List Text → Outcome Summary
  unfolding summarize_lines
  summarize_audit_log R lines = summarize_lines R lines no_summary

  unfoldable pub text_under : Text → Fields → Text
  text_under key event = str_of show (get_or key (str []) event)

  abbrev pub domain_prefix : Text
  domain_prefix = codes "domain not allowlisted: "

  -- The set comprehensions, sorted. The first `": "` of a reason that begins with the prefix is the
  -- end of the prefix.
  unfoldable pub blocked_domains : List Fields → List Text
  unfolding text_under insert_text
  blocked_domains [] = []
  blocked_domains (event ∷ events) =
      let rest = blocked_domains events in
      let reason = text_under (codes "reason") event in
      if starts_with reason domain_prefix
      then insert_text (drop (length domain_prefix) reason) rest
      else rest

  -- A list or a dict, which is never written there, is taken to be no member.
  unfoldable pub is_write_call : Json → Bool
  is_write_call (str text) =
      contains (codes "write_file" ∷ codes "write" ∷ codes "openat" ∷ []) text
  is_write_call _ = false

  unfoldable pub written_files : List Fields → List Text
  unfolding is_write_call insert_text
  written_files [] = []
  written_files (event ∷ events) =
      let rest = written_files events in
      if is_write_call (get (codes "tool_call") event) && truthy (get (codes "path") event)
      then insert_text (str_of show (get (codes "path") event)) rest
      else rest

  unfoldable pub run_commands : List Fields → List Text
  unfolding insert_text
  run_commands [] = []
  run_commands (event ∷ events) =
      let rest = run_commands events in
      if truthy (get (codes "command") event)
      then insert_text (str_of show (get (codes "command") event)) rest
      else rest

  unfoldable pub blocked_events : List Fields → List Fields
  unfolding decision_of
  blocked_events [] = []
  blocked_events (event ∷ events) =
      let rest = blocked_events events in
      if decision_of show event == codes "block" then event ∷ rest else rest

  unfoldable pub blocked_line : Fields → Text
  unfolding md or_json
  blocked_line event =
      codes "- Blocked `"
      ++ (str_of show (get (codes "tool_call") event)
          ++ (codes "`: "
              ++ md (str_of show (or_json (get (codes "reason") event) (str (codes "unknown"))))))

  unfoldable pub joined_or_none : List Text → Text
  unfolding join_with
  joined_or_none texts = if texts == [] then codes "none recorded" else join_with (codes ", ") texts

  unfoldable pub command_lines : List Text → List Text
  unfolding md
  command_lines commands =
      if commands == []
      then codes "- none recorded" ∷ []
      else map (λ command. codes "- `" ++ (md command ++ codes "`")) commands

  unfoldable pub review_lines : List Fields → List Text
  unfolding blocked_line
  review_lines [] = codes "- No blocked actions recorded." ∷ []
  review_lines (event ∷ events) = map blocked_line (take 10 (event ∷ events))

  -- The lines that `render_pr_summary_markdown` joins.
  unfoldable pub pr_summary_lines : Report show → List Text
  unfolding blocked_events blocked_domains written_files run_commands joined_or_none command_lines
      review_lines
  pr_summary_lines report =
      let blocked = blocked_events report.events in
      map redact_text (
        (codes "## RuneGuard PR Summary"
          ∷ []
          ∷ (codes "- Total events: " ++ nat_text report.total_events)
          ∷ (codes "- Blocked actions: " ++ nat_text report.blocked_count)
          ∷ (codes "- Allowed actions: " ++ nat_text report.allow_count)
          ∷ (codes "- Domains blocked/contacted: " ++ joined_or_none (blocked_domains blocked))
          ∷ (codes "- Files written: " ++ joined_or_none (written_files report.events))
          ∷ []
          ∷ codes "### Commands"
          ∷ [])
        ++ (command_lines (run_commands report.events)
            ++ ([] ∷ codes "### Review Before Merging" ∷ review_lines blocked)))

unfoldable pub counter_lines : Counter → List Text
counter_lines [] = codes "  none" ∷ []
counter_lines (entry ∷ counter) =
    map (λ (key, count). codes "  " ++ (key ++ (codes ": " ++ nat_text count))) (entry ∷ counter)

-- The lines that `render_summary_text` joins.
unfoldable pub render_summary_text : Summary → List Text
unfolding counter_lines most_common
render_summary_text summary =
    ((codes "Total decisions: " ++ nat_text summary.total)
      ∷ (codes "Allowed: " ++ nat_text summary.allowed)
      ∷ (codes "Blocked: " ++ nat_text summary.blocked)
      ∷ codes "Blocked actions by tool:"
      ∷ counter_lines (most_common summary.blocked_actions))
    ++ (codes "Top blocked reasons:" ∷ counter_lines (take 5 (most_common summary.blocked_reasons)))
