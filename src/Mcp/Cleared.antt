-- ===== src/Mcp/Cleared.antt =====
-- What it is for an operation of runeguard/mcp/server.py to be cleared, and the guarded call that
-- clears it.
use runeguard.Prelude.{
  Text, codes, [], ◌∷◌, list_eq, nat_eq, if◌then◌else◌, Option, none, some, ◌≡◌, refl, Bool-cases,
  inl, inr,
}
use runeguard.Outcome.{ok, Outcome-cases}
use runeguard.Redaction.{redact_fields, redact_value}
use runeguard.Decision.{Decision, DecisionType, allow, block, require_approval}
use runeguard.Json.{str, object, Fields}
use runeguard.Policy.Loading.{find}
use runeguard.Logger.{
  LogOptions, AuditFields, log_decision, write_audit_record, decision_record, message_of,
}
use runeguard.Effects.{Exit, done, refused, failed, Action, follow, ◌>>=◌, ◌>>◌, pure, fail, lift}
use runeguard.Effects.Keeping.{Keeps, follow-Keeps, if-Keeps}
use runeguard.ToolProxy.{Judge, judged, gated, call, names_parameter}
use runeguard.Mcp.Server.{
  Operation, read_text, write_text, run_shell, recorded, printed, performed, History, Surroundings,
  history_sink,
}

-- The call of a tool that asks for an operation.
abbrev pub AsksFor : Operation → Text → Fields → Type 0
AsksFor (read_text path) tool_name kwargs =
    (tool_name ≡ codes "read_file") × (find (codes "path") kwargs ≡ some (str path))
AsksFor (write_text path content) tool_name kwargs =
    (tool_name ≡ codes "write_file")
    × (find (codes "path") kwargs ≡ some (str path))
    × (find (codes "content") kwargs ≡ some (str content))
AsksFor (run_shell command) tool_name kwargs =
    (tool_name ≡ codes "shell") × (find (codes "command") kwargs ≡ some (str command))

module _ (outside : Surroundings) (judge : Judge) (options : LogOptions) where
  -- The judge allows a call that asks for the operation, and the last thing done before it was to
  -- log that decision, without failure.
  abbrev pub IsCleared : Operation → History → Type 0
  IsCleared operation history =
      (tool_name : Text) × (kwargs : Fields) × (given : AuditFields) × (decision : Decision)
      × (before : History) × AsksFor operation tool_name kwargs
      × (judged judge tool_name kwargs ≡ ok decision)
      × (decision.type ≡ allow)
      × (log_decision (history_sink outside) options tool_name decision kwargs given before
          ≡ (done tt, history))

  -- Every operation of a history was cleared.
  abbrev pub IsGuarded : History → Type 0
  IsGuarded [] = Unit
  IsGuarded (performed operation ∷ history) = IsCleared operation history × IsGuarded history
  IsGuarded (recorded path fields ∷ history) = IsGuarded history
  IsGuarded (printed text ∷ history) = IsGuarded history

  -- An action that performs nothing uncleared.
  abbrev pub IsSafe : {A : Type 0} → Action History A → Type 0
  IsSafe m = Keeps IsGuarded m

  write_audit_record-IsSafe :
      (path : Option Text) (fields : Fields)
      → IsSafe (write_audit_record (history_sink outside) path fields)
  unfolding write_audit_record history_sink
  write_audit_record-IsSafe none fields h g = g
  write_audit_record-IsSafe (some []) fields h g = g
  write_audit_record-IsSafe (some (c ∷ path)) fields h g =
      elim (Bool-cases (outside.can_append h (c ∷ path) (redact_fields fields))) [
        | inl e ↦ rw e g
        | inr e ↦ rw e g
      ]

  log_decision-IsSafe :
      (tool_name : Text) (decision : Decision) (kwargs : Fields) (given : AuditFields)
      → IsSafe (log_decision (history_sink outside) options tool_name decision kwargs given)
  unfolding log_decision history_sink
  log_decision-IsSafe tool_name decision kwargs given h g =
      follow-Keeps IsGuarded
        (write_audit_record (history_sink outside) options.audit_log (entry h) h).0
        (λ _. if options.quiet then pure tt else (history_sink outside).print shown)
        (λ a.
          if-Keeps IsGuarded options.quiet (pure tt) ((history_sink outside).print shown)
            (λ h' g'. g') (λ h' g'. g'))
        (write_audit_record (history_sink outside) options.audit_log (entry h) h).1
        (write_audit_record-IsSafe options.audit_log (entry h) h g)
    where
      entry : History → Fields
      entry history =
          decision_record outside.show (outside.process history) tool_name decision kwargs given

      shown : Text
      shown =
          if options.json_logs
          then outside.dumps (redact_value (object (entry h)))
          else message_of (history_sink outside) tool_name decision kwargs

  -- What an allowed and logged call may do.
  abbrev pub IsSafeIfCleared : {A : Type 0} → Text → Fields → Action History A → Type 0
  IsSafeIfCleared tool_name kwargs m =
      (h : History)
      → ((operation : Operation) → AsksFor operation tool_name kwargs → IsCleared operation h)
      → IsGuarded h
      → IsGuarded (m h).1

  gated-IsGuarded :
      {A : Type 0} (decision : Decision) (m : Action History A) (h : History)
      → IsGuarded h
      → (decision.type ≡ allow → IsGuarded (m h).1)
      → IsGuarded (gated decision m h).1
  unfolding gated
  gated-IsGuarded decision m h g k = go decision.type refl
    where
      go : (t : DecisionType) → decision.type ≡ t → IsGuarded (gated decision m h).1
      go allow e = rw e (k e)
      go block e = rw e g
      go require_approval e = rw e g

  pub call-IsSafe :
      {A : Type 0} (tool_name : Text) (fn : Fields → Action History A) (given : AuditFields)
      (kwargs : Fields)
      → IsSafeIfCleared tool_name kwargs (fn kwargs)
      → IsSafe (call (history_sink outside) judge options tool_name fn given kwargs)
  unfolding call
  call-IsSafe tool_name fn given kwargs safe =
      if-Keeps IsGuarded (names_parameter kwargs) fail
        (lift (judged judge tool_name kwargs) >>= λ decision.
          log_decision (history_sink outside) options tool_name decision kwargs given
          >> gated decision (fn kwargs))
        (λ h g. g) go
    where
      logged :
          (decision : Decision) (h : History)
          → judged judge tool_name kwargs ≡ ok decision
          → IsGuarded h
          → (e : Exit Unit) (h' : History)
          → log_decision (history_sink outside) options tool_name decision kwargs given h ≡ (e, h')
          → IsGuarded h'
          → IsGuarded (follow e (λ _. gated decision (fn kwargs)) h').1
      logged decision h j g (done tt) h' e g' = gated-IsGuarded decision (fn kwargs) h' g' (λ a.
          safe h' (λ operation asks. (tool_name, kwargs, given, decision, h, asks, j, a, e)) g')
      logged decision h j g (refused reason) h' e g' = g'
      logged decision h j g failed h' e g' = g'

      go : IsSafe (
          lift (judged judge tool_name kwargs) >>= λ decision.
          log_decision (history_sink outside) options tool_name decision kwargs given
          >> gated decision (fn kwargs))
      go h g = elim (Outcome-cases (judged judge tool_name kwargs)) [
        | inl j ↦ rw j g
        | inr (decision, j) ↦ rw j (
            logged decision h j g
              (log_decision (history_sink outside) options tool_name decision kwargs given h).0
              (log_decision (history_sink outside) options tool_name decision kwargs given h).1 refl
              (log_decision-IsSafe tool_name decision kwargs given h g))
      ]
