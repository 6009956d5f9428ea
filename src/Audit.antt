-- ===== src/Audit.antt =====
-- runeguard/audit.py: the report on an audit log, and what of it goes into a table.
pub mod Totals
pub mod Summary
pub mod Balanced
use runeguard.Prelude.{
  ℕ, suc, ◌+◌, Text, codes, Bool, true, false, List, [], ◌∷◌, ◌++◌, ◌==◌, list_eq, nat_eq,
  if◌then◌else◌, Option, none, some, leb, take, length, strip,
}
use runeguard.Outcome.{Outcome, ok, raised, ◌>>=◌}
use runeguard.Json.{
  Json, null, boolean, int, float, str, array, object, Fields, end, field, get, truthy, str_of,
}
use runeguard.Integrity.Runtime.{Runtime}
use runeguard.Integrity.Envelope.{unwrap_payload}
use runeguard.Redaction.{redact_value}
use runeguard.Mcp.Messages.{get_or}
use runeguard.Logger.{normalize_decision, or_json}

-- A `Counter`, in the order in which its keys came.
abbrev pub Counter : Type 0
Counter = List (Text × ℕ)

-- `counter[key] += 1`
unfoldable pub count_up : Text → Counter → Counter
count_up key [] = (key, 1) ∷ []
count_up key ((other, n) ∷ counter) =
    let rest = count_up key counter in
    if other == key then (other, suc n) ∷ counter else (other, n) ∷ rest

-- `counter[key]`
unfoldable pub count_of : Text → Counter → ℕ
count_of key [] = 0
count_of key ((other, n) ∷ counter) =
    let later = count_of key counter in if other == key then n else later

-- `counter.most_common()`: the larger counts first, equal ones as they came.
unfoldable pub insert_common : Text × ℕ → Counter → Counter
insert_common (key, n) [] = (key, n) ∷ []
insert_common (key, n) ((other, m) ∷ counter) =
    let rest = insert_common (key, n) counter in
    if leb m n then (key, n) ∷ (other, m) ∷ counter else (other, m) ∷ rest

unfoldable pub most_common : Counter → Counter
unfolding insert_common
most_common [] = []
most_common (entry ∷ counter) = insert_common entry (most_common counter)

-- `event[key] = value`
unfoldable pub set_item : Text → Json → Fields → Fields
set_item key value end = field key value end
set_item key value (field name old fields) =
    let rest = set_item key value fields in
    if name == key then field name value fields else field name old rest

-- A line that is no JSON raises, and an event that is no dict has no `get`.
unfoldable pub event_of : Json → Outcome Fields
event_of (object fields) = ok fields
event_of _ = raised

unfoldable pub read_event : Runtime → Text → Outcome Fields
unfolding event_of
read_event R line = elim (R.loads line) [
  | none ↦ raised
  | some value ↦ event_of (redact_value (unwrap_payload value))
]

-- `_read_jsonl`
unfoldable pub read_jsonl : Runtime → List Text → Outcome (List Fields)
unfolding read_event
read_jsonl R [] = ok []
read_jsonl R (raw ∷ lines) =
    let rest = read_jsonl R lines in
    let here = (do event ← read_event R (strip raw); events ← rest; ok (event ∷ events)) in
    if strip raw == [] then rest else here

-- The counters of `build_report`.
pub record Tally : Type 0 where
  pub decisions : Counter
  pub rules : Counter
  pub targets : Counter

abbrev pub no_events : Tally
no_events = record { decisions = []; rules = []; targets = [] }

-- `show` is Python's `str`.
module _ (show : Json → Text) where
  unfoldable pub decision_of : Fields → Text
  unfolding normalize_decision
  decision_of event =
      normalize_decision (str_of show (get_or (codes "decision") (str (codes "audit")) event))

  unfoldable pub count_value : Json → Counter → Counter
  unfolding count_up
  count_value value counter = if truthy value then count_up (str_of show value) counter else counter

  unfoldable pub target_of : Fields → Json
  unfolding or_json
  target_of event = or_json (get (codes "path") event) (get (codes "command") event)

  -- One round of the loop of `build_report`.
  unfoldable pub tally_event : Fields → Tally → Tally
  unfolding decision_of count_value target_of count_up
  tally_event event tally = record {
    decisions = count_up (decision_of event) tally.decisions;
    rules = count_value (get (codes "rule_matched") event) tally.rules;
    targets = count_value (target_of event) tally.targets;
  }

  unfoldable pub tally_events : List Fields → Tally → Tally
  unfolding tally_event
  tally_events [] tally = tally
  tally_events (event ∷ events) tally = tally_events events (tally_event event tally)

  -- The events with their decision written over.
  unfoldable pub decided_events : List Fields → List Fields
  unfolding decision_of set_item
  decided_events [] = []
  decided_events (event ∷ events) =
      set_item (codes "decision") (str (decision_of event)) event ∷ decided_events events

  -- The loop of `_top_blocked_rules`.
  unfoldable pub count_blocked : List Fields → Counter → Counter
  unfolding decision_of count_up or_json
  count_blocked [] counter = counter
  count_blocked (event ∷ events) counter = count_blocked events (
      if decision_of event == codes "block"
      then count_up
          (str_of show (or_json (get (codes "rule_matched") event) (str (codes "<none>")))) counter
      else counter)

  unfoldable pub top_blocked_rules : List Fields → Counter
  unfolding count_blocked most_common
  top_blocked_rules events = take 5 (most_common (count_blocked events []))

  pub record Report : Type 0 where
    pub total_events : ℕ
    pub blocked_count : ℕ
    pub allow_count : ℕ
    pub block_count : ℕ
    pub audit_count : ℕ
    pub rule_matched_counts : Counter
    pub target_counts : Counter
    pub top_blocked : Counter
    pub events : List Fields

  unfoldable pub report_of : List Fields → Report
  unfolding tally_events decided_events top_blocked_rules count_of most_common
  report_of found =
      let tally = tally_events found no_events in
      let events = decided_events found in
      record {
        total_events = length events;
        blocked_count = count_of (codes "block") tally.decisions;
        allow_count = count_of (codes "allow") tally.decisions;
        block_count = count_of (codes "block") tally.decisions;
        audit_count = count_of (codes "audit") tally.decisions;
        rule_matched_counts = most_common tally.rules;
        target_counts = most_common tally.targets;
        top_blocked = top_blocked_rules events;
        events = events;
      }

  -- `build_report`, on the lines of the file.
  unfoldable pub build_report : Runtime → List Text → Outcome Report
  unfolding read_jsonl report_of
  build_report R lines = do found ← read_jsonl R lines; ok (report_of found)

-- `_md`: the three replacements one after the other.
unfoldable pub replace_code : ℕ → Text → Text → Text
replace_code code by [] = []
replace_code code by (c ∷ text) =
    let rest = replace_code code by text in if c == code then by ++ rest else c ∷ rest

unfoldable pub md : Text → Text
unfolding replace_code
md value =
    replace_code 10 (codes "<br>")
      (replace_code 124 (92 ∷ 124 ∷ []) (replace_code 92 (92 ∷ 92 ∷ []) value))
