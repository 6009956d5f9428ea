-- ===== src/Integrity/Appending.antt =====
-- One `TamperEvidentLog.append` of runeguard/integrity.py.
use runeguard.Prelude.{
  ℕ, ◌+◌, ◌≡◌, refl, sym, ◌∙◌, ap, Text, true, List, [], ◌∷◌, ◌++◌, length, Option, none, some,
  ==_refl, list_eq, nat_eq, option_eq, arith, All, length-append,
}
use runeguard.Prelude.Int.{ℤ, suc_ℤ, suc_ℤ-pred_ℤ, int_eq, int_text}
use runeguard.Outcome.{ok}
use runeguard.Json.{Json, str, object, Fields, get}
use runeguard.Integrity.Runtime.{Bytes, Runtime, IsLawful, IsPrinted}
use runeguard.Integrity.Envelope.{
  Envelope, whole, int_value, seq_text, domain, join_nul, read_envelope, encode_ascii, or_empty,
  digest, legacy_digest, hash_material, canonical, unwrap_payload,
}
use runeguard.Integrity.Log.{TamperEvidentLog, line_of, iter_lines, mode_of, envelope_json, append}
use runeguard.Integrity.Verify.{compare_digest, check_hash, verify_log}
use runeguard.Integrity.Chain.{read_line, Reads, Links, accepted, verify_log-accepts_iff}
use runeguard.Integrity.Growth.{
  IsTerminated, written_behind-IsTerminated, strip-break, next_seq, last_text, IsAscii,
  printed-IsAscii, encode_utf8-ascii, iter_lines-append, Reads-append, Links-append,
  last_hash-append, tail_head-Links,
}

check_hash-IsAscii :
    (R : Runtime) (key : Option Bytes) (e : Envelope) (prev_hash : Text)
    → check_hash R key e prev_hash ≡ ok true
    → IsAscii e.hash
unfolding check_hash compare_digest
check_hash-IsAscii R key e prev_hash good = ground arith

last_text-IsAscii :
    (R : Runtime) (key : Option Bytes) (seq : ℤ) (prev_hash : Text) (es : List Envelope)
    → IsAscii prev_hash
    → Links R key seq prev_hash es
    → IsAscii (last_text prev_hash es)
last_text-IsAscii R key seq prev_hash [] ascii links = ascii
last_text-IsAscii R key seq prev_hash (e ∷ es) ascii (same, linked, good, links) =
    last_text-IsAscii R key (suc_ℤ seq) e.hash es (check_hash-IsAscii R key e prev_hash good) links

-- The hash of a record that `append` writes.
abbrev written_hash : Runtime → Option Bytes → ℤ → Text → Text → Fields → Text
written_hash R key seq prev_hash ts payload =
    hash_material R key
      (join_nul domain (int_text seq ∷ prev_hash ∷ ts ∷ mode_of key ∷ canonical R payload ∷ []))

-- The record that `append` writes.
abbrev written : Runtime → Option Bytes → ℤ → Text → Text → Fields → Envelope
written R key seq prev_hash ts payload = record {
  seq = whole seq;
  prev_hash = prev_hash;
  payload = payload;
  hash = written_hash R key seq prev_hash ts payload;
  ts = str ts;
  mode = str (mode_of key);
}

mode_of-IsAscii : (key : Option Bytes) → IsAscii (mode_of key)
unfolding mode_of
mode_of-IsAscii none = refl
mode_of-IsAscii (some key) = refl

module _ (R : Runtime) (key : Option Bytes) (seq : ℤ) (prev_hash : Text) (ts : Text)
    (payload : Fields) where
  digest-written :
      IsAscii prev_hash
      → All IsPrinted ts
      → digest R key (whole seq) prev_hash payload (str ts) (str (mode_of key))
        ≡ ok (written_hash R key seq prev_hash ts payload)
  unfolding digest encode_ascii or_empty seq_text
  digest-written ascii printed = rw (ascii, encode_utf8-ascii ts printed, mode_of-IsAscii key)

  legacy_digest-returns :
      IsAscii prev_hash → (h : Text) × (legacy_digest R key (whole seq) prev_hash payload ≡ ok h)
  unfolding legacy_digest encode_ascii seq_text
  legacy_digest-returns ascii = (
    hash_material R key (join_nul domain (int_text seq ∷ prev_hash ∷ canonical R payload ∷ [])),
    rw ascii,
  )

  read_envelope-json :
      (hash : Text)
      → read_envelope (envelope_json seq ts prev_hash payload hash (mode_of key))
        ≡ some (record {
          seq = whole seq;
          prev_hash = prev_hash;
          payload = payload;
          hash = hash;
          ts = str ts;
          mode = str (mode_of key);
        })
  unfolding read_envelope envelope_json get list_eq nat_eq
  read_envelope-json hash = refl

  module _ (L : IsLawful R) where
    hash_material-IsPrinted : (material : Bytes) → All IsPrinted (hash_material R key material)
    unfolding hash_material
    hash_material-IsPrinted material = go key
      where
        go : (k : Option Bytes) → All IsPrinted (hash_material R k material)
        go none = L.sha256_printed material
        go (some k) = L.hmac_printed k material

    check_hash-written :
        IsAscii prev_hash
        → All IsPrinted ts
        → check_hash R key (written R key seq prev_hash ts payload) prev_hash ≡ ok true
    unfolding check_hash compare_digest
    check_hash-written ascii printed =
        let (legacy, returns) = legacy_digest-returns ascii in
        let h = written_hash R key seq prev_hash ts payload in
        rw (
          digest-written ascii printed,
          returns,
          printed-IsAscii h (hash_material-IsPrinted _),
          ==_refl h,
        )

read_line_of_loads :
    (R : Runtime) (line : Text) (value : Json)
    → R.loads line ≡ some value
    → read_line R line ≡ read_envelope value
unfolding read_line
read_line_of_loads R line value loaded = ground arith

unwrap_payload_of_read :
    (value : Json) (e : Envelope)
    → read_envelope value ≡ some e
    → unwrap_payload value ≡ object e.payload
unfolding unwrap_payload
unwrap_payload_of_read value e read = ground arith

module _ (R : Runtime) (L : IsLawful R) (log : TamperEvidentLog) (lines : List Text)
    (es : List Envelope) (ascii : IsAscii log.initial_prev_hash)
    (reads : Reads R (iter_lines lines) es)
    (links : Links R log.key log.initial_seq log.initial_prev_hash es) (ts : Text)
    (printed : All IsPrinted ts) (payload : Fields) where
  abbrev pub end_seq : ℤ
  end_seq = next_seq log.initial_seq es

  abbrev pub end_hash : Text
  end_hash = last_text log.initial_prev_hash es

  abbrev pub added : Envelope
  added = written R log.key end_seq end_hash ts payload

  pub end_hash-IsAscii : IsAscii end_hash
  end_hash-IsAscii =
      last_text-IsAscii R log.key log.initial_seq log.initial_prev_hash es ascii links

  abbrev pub added_json : Json
  added_json = envelope_json end_seq ts end_hash payload added.hash (mode_of log.key)

  pub append-written :
      IsTerminated lines
      → append R log ts payload lines ≡ ok (added_json, lines ++ (line_of R added_json ∷ []))
  unfolding append
  append-written terminated = rw (
    tail_head-Links R log.key log lines es reads links,
    suc_ℤ-pred_ℤ,
    digest-written R log.key end_seq end_hash ts payload end_hash-IsAscii printed,
    written_behind-IsTerminated lines (line_of R added_json) terminated,
  )

  read_line-added : read_line R (R.dumps added_json) ≡ some added
  read_line-added =
      read_line_of_loads R (R.dumps added_json) added_json (L.loads-dumps added_json)
      ∙ read_envelope-json R log.key end_seq end_hash ts payload added.hash

  pub Reads-added : Reads R (iter_lines (lines ++ (line_of R added_json ∷ []))) (es ++ (added ∷ []))
  Reads-added =
      rw
        (iter_lines-append lines (line_of R added_json) (R.dumps added_json)
          (strip-break (R.dumps added_json) ∙ L.strip-dumps added_json) (L.dumps_ne_nil added_json))
        (Reads-append R (iter_lines lines) es _ added reads read_line-added)

  Links-added : Links R log.key log.initial_seq log.initial_prev_hash (es ++ (added ∷ []))
  unfolding int_value
  Links-added = Links-append R log.key log.initial_seq log.initial_prev_hash es added links (
    refl,
    refl,
    check_hash-written R log.key end_seq end_hash ts payload L end_hash-IsAscii printed,
    tt,
  )

  pub accepted-added :
      verify_log R log.key
        (some added.hash)
        log.initial_seq
        log.initial_prev_hash
        (lines ++ (line_of R added_json ∷ []))
      ≡ ok (accepted (length es + 1) (some added.hash))
  accepted-added =
      (verify_log-accepts_iff R log.key (some added.hash) log.initial_seq log.initial_prev_hash _
          (length es + 1) (some added.hash)).1
        (
          es ++ (added ∷ []),
          Reads-added,
          Links-added,
          omega (arith, length-append es (added ∷ [])),
          sym (last_hash-append none es added),
          refl,
        )

  pub unwrap_payload-added : unwrap_payload added_json ≡ object payload
  unwrap_payload-added =
      unwrap_payload_of_read added_json added
        (read_envelope-json R log.key end_seq end_hash ts payload added.hash)

-- An append to a file that `verify_log` accepts and whose last line, if any, has a break succeeds
-- and adds one line. The longer file is accepted from the same start, with one record more and with
-- the hash of the new record as its expected head, and the new line unwraps to the payload.
pub append-verify_log :
    (R : Runtime) (log : TamperEvidentLog) (lines : List Text) (count : ℕ) (head : Option Text)
    (ts : Text) (payload : Fields)
    → IsLawful R
    → IsAscii log.initial_prev_hash
    → All IsPrinted ts
    → IsTerminated lines
    → verify_log R log.key none log.initial_seq log.initial_prev_hash lines
      ≡ ok (accepted count head)
    → (envelope : Json) × (hash : Text) × (append R log ts payload lines
        ≡ ok (envelope, lines ++ (line_of R envelope ∷ [])))
      × (verify_log R log.key
            (some hash)
            log.initial_seq
            log.initial_prev_hash
            (lines ++ (line_of R envelope ∷ []))
          ≡ ok (accepted (count + 1) (some hash)))
      × (unwrap_payload envelope ≡ object payload)
append-verify_log R log lines count head ts payload L ascii printed terminated fine =
    let (es, reads, links, counted, last, expects) =
      (verify_log-accepts_iff R log.key none log.initial_seq log.initial_prev_hash lines count
          head).0
        fine in
    (
      added_json R L log lines es ascii reads links ts printed payload,
      (added R L log lines es ascii reads links ts printed payload).hash,
      append-written R L log lines es ascii reads links ts printed payload terminated,
      accepted-added R L log lines es ascii reads links ts printed payload
          ∙ ap
              (λ (n : ℕ). ok (
                accepted (n + 1)
                  (some (added R L log lines es ascii reads links ts printed payload).hash)))
              (sym counted),
      unwrap_payload-added R L log lines es ascii reads links ts printed payload,
    )
