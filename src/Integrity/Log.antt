-- ===== src/Integrity/Log.antt =====
-- The class `TamperEvidentLog` of runeguard/integrity.py. The file is the list of its lines, each
-- with the break at its end, which only the last can lack; the lock, the flush and the sync of one
-- append leave no trace in it. The clock is an argument.
use runeguard.Prelude.{
  Bool, false, Text, codes, List, [], ◌∷◌, ◌++◌, Option, none, some, ◌==◌, if◌then◌else◌, list_eq,
  nat_eq, strip,
}
use runeguard.Prelude.Int.{ℤ, pos, suc_ℤ, pred_ℤ}
use runeguard.Outcome.{Outcome, ok, raised, ◌>>=◌}
use runeguard.Json.{Json, int, str, object, Fields, end, field}
use runeguard.Integrity.Runtime.{Bytes, Runtime}
use runeguard.Integrity.Envelope.{whole, int_value, genesis_prev, digest, read_envelope}

pub record TamperEvidentLog : Type 0 where
  pub key : Option Bytes
  pub initial_seq : ℤ
  pub initial_prev_hash : Text

-- The constructor's defaults.
abbrev pub fresh_log : Option Bytes → TamperEvidentLog
fresh_log key = record { key = key; initial_seq = pos 0; initial_prev_hash = genesis_prev }

pub record ChainHead : Type 0 where
  pub seq : ℤ
  pub hash : Text

-- `_iter_lines`: the stripped lines that are not empty.
unfoldable pub iter_lines : List Text → List Text
iter_lines [] = []
iter_lines (raw ∷ lines) =
    let line = strip raw in let rest = iter_lines lines in if line == [] then rest else line ∷ rest

-- `last` after the loop of `_tail_head`.
unfoldable pub last_line : List Text → Option Text
last_line [] = none
last_line (line ∷ []) = some line
last_line (line ∷ next ∷ lines) = last_line (next ∷ lines)

-- `env = json.loads(last)`, which has to be an envelope.
unfoldable pub head_of : Runtime → Text → Outcome ChainHead
head_of R line = elim (R.loads line) [
  | none ↦ raised
  | some env ↦ elim (read_envelope env) [
    | none ↦ raised
    | some e ↦ ok (record { seq = int_value e.seq; hash = e.hash })
  ]
]

unfoldable pub tail_head : Runtime → TamperEvidentLog → List Text → Outcome ChainHead
tail_head R log lines = elim (last_line (iter_lines lines)) [
  | none ↦ ok (record { seq = pred_ℤ log.initial_seq; hash = log.initial_prev_hash })
  | some line ↦ head_of R line
]

-- `"sealed" if self.key is not None else "chain"`
unfoldable pub mode_of : Option Bytes → Text
mode_of none = codes "chain"
mode_of (some key) = codes "sealed"

-- The dict that is written, in the order of its keys.
unfoldable pub envelope_json : ℤ → Text → Text → Fields → Text → Text → Json
envelope_json seq ts prev_hash payload hash mode = object (
    field (codes "hash") (str hash) (
      field (codes "mode") (str mode) (
        field (codes "payload") (object payload) (
          field (codes "prev_hash") (str prev_hash)
            (field (codes "seq") (int seq) (field (codes "ts") (str ts) end))))))

-- The text ends in a line break.
unfoldable pub has_break : Text → Bool
has_break [] = false
has_break (c ∷ []) = c == 10
has_break (c ∷ d ∷ text) = has_break (d ∷ text)

-- The lines of a file that is opened with the mode "a", after a text without a break but at its end
-- is written: a last line that has no break goes on.
unfoldable pub written_behind : List Text → Text → List Text
unfolding has_break
written_behind [] text = text ∷ []
written_behind (line ∷ []) text = if has_break line then line ∷ text ∷ [] else (line ++ text) ∷ []
written_behind (line ∷ next ∷ lines) text = line ∷ written_behind (next ∷ lines) text

-- The text that is written for an envelope.
abbrev pub line_of : Runtime → Json → Text
line_of R envelope = R.dumps envelope ++ (10 ∷ [])

-- `append`: the envelope and the file after it. Nothing is written where it raises.
unfoldable pub append :
    Runtime → TamperEvidentLog → Text → Fields → List Text → Outcome (Json × List Text)
unfolding written_behind
append R log ts payload lines = do
  head ← tail_head R log lines
  let seq = suc_ℤ head.seq
  let mode = mode_of log.key
  hash ← digest R log.key (whole seq) head.hash payload (str ts) (str mode)
  let envelope = envelope_json seq ts head.hash payload hash mode
  ok (envelope, written_behind lines (line_of R envelope))
