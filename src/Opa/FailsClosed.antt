-- ===== src/Opa/FailsClosed.antt =====
-- When the backend of runeguard/opa.py allows a call.
use runeguard.Prelude.{
  Text, codes, Bool, true, false, [], ◌++◌, Option, none, some, ==_iff, list_eq, nat_eq, ◌≡◌, ◌≢◌,
  ◌↔◌, inl, inr, refl, sym, ap, ◌∙◌, arith, Bool-cases,
}
use runeguard.Decision.{Decision, allow, block}
use runeguard.Json.{Json, null, boolean, int, float, str, array, object, get, truthy}
use runeguard.Policy.Settings.{Policy}
use runeguard.Opa.{
  ◌>>=◌, CompletedProcess, OpaSystem, first_expression_value, type_of, decision_of_value,
  decision_of_run, opa_argv, opa_decide,
}

-- What the value of the query says: the entry `allow` of an object, or the value itself.
abbrev pub says_allow : Json → Bool
says_allow (object fields) = truthy (get (codes "allow") fields)
says_allow value = truthy value

-- A result of the process that allows.
abbrev pub GivesAllow : {Kwargs : Type 0} → OpaSystem Kwargs → CompletedProcess → Type 0
GivesAllow system completed =
    (completed.failed ≡ false)
    × ((result : Json) × (value : Json) × (system.loads completed.stdout ≡ some result)
        × (first_expression_value result ≡ some value)
        × (says_allow value ≡ true))

module _ {Kwargs : Type 0} (system : OpaSystem Kwargs) where
  type_of-allow_iff : (b : Bool) → (type_of b ≡ allow) ↔ (b ≡ true)
  unfolding type_of
  type_of-allow_iff true = (λ h. refl, λ h. refl)
  type_of-allow_iff false = (λ h. cc, λ h. cc)

  decision_of_value-allow_iff :
      (value : Json) → ((decision_of_value system value).type ≡ allow) ↔ (says_allow value ≡ true)
  unfolding decision_of_value
  decision_of_value-allow_iff (object fields) =
      type_of-allow_iff (truthy (get (codes "allow") fields))
  decision_of_value-allow_iff null = type_of-allow_iff (truthy null)
  decision_of_value-allow_iff (boolean b) = type_of-allow_iff (truthy (boolean b))
  decision_of_value-allow_iff (int n) = type_of-allow_iff (truthy (int n))
  decision_of_value-allow_iff (float text) = type_of-allow_iff (truthy (float text))
  decision_of_value-allow_iff (str text) = type_of-allow_iff (truthy (str text))
  decision_of_value-allow_iff (array items) = type_of-allow_iff (truthy (array items))

  -- The value that the output has, if it has one.
  abbrev value_of_output : Option Json → Option Json
  value_of_output parsed = parsed >>= first_expression_value

  abbrev decision_of_output : Text → Option Json → Decision
  decision_of_output invalid none = record { type = block; reason = invalid }
  decision_of_output invalid (some value) = decision_of_value system value

  decision_of_run-cases :
      (completed : CompletedProcess)
      → completed.failed ≡ false
      → (invalid : Text) × (decision_of_run system completed
          ≡ decision_of_output invalid (value_of_output (system.loads completed.stdout)))
  unfolding decision_of_run
  decision_of_run-cases completed fine =
      (codes "invalid OPA result: " ++ system.error_text completed.stdout, rw fine refl)

  decision_of_run-failed :
      (completed : CompletedProcess)
      → completed.failed ≡ true
      → (decision_of_run system completed).type ≡ block
  unfolding decision_of_run
  decision_of_run-failed completed failed = ground arith

  output-allow_iff :
      (invalid : Text) (o : Option Json)
      → ((decision_of_output invalid (value_of_output o)).type ≡ allow) ↔ (
          (result : Json) × (value : Json) × (o ≡ some result)
          × (first_expression_value result ≡ some value)
          × (says_allow value ≡ true))
  output-allow_iff invalid none = (λ h. cc, λ (result, value, h, _, _). cc)
  output-allow_iff invalid (some result) = go (first_expression_value result) refl
    where
      go :
          (found : Option Json)
          → first_expression_value result ≡ found
          → ((decision_of_output invalid found).type ≡ allow) ↔ (
              (result' : Json) × (value : Json) × (some result ≡ some result')
              × (first_expression_value result' ≡ some value)
              × (says_allow value ≡ true))
      go none e = (λ h. cc, λ (result', value, h, k, _). let same : result ≡ result' = cc in cc)
      go (some value) e = (
        λ h. (result, value, refl, e, (decision_of_value-allow_iff value).0 h),
        λ (result', value', h, k, a).
            let same : result ≡ result' = cc in
            let found : value ≡ value' = cc in (decision_of_value-allow_iff value).1 (cc),
      )

  decision_of_run-allow_iff :
      (completed : CompletedProcess)
      → ((decision_of_run system completed).type ≡ allow) ↔ GivesAllow system completed
  decision_of_run-allow_iff completed = elim (Bool-cases completed.failed) [
    | inl failed ↦
        (let blocks = decision_of_run-failed completed failed in (λ h. cc, λ (fine, rest). cc))
    | inr fine ↦
        (let (invalid, e) = decision_of_run-cases completed fine in
          let out = output-allow_iff invalid (system.loads completed.stdout) in
          let same : (decision_of_run system completed).type
              ≡ (decision_of_output invalid
                  (value_of_output (system.loads completed.stdout))).type =
            ap (λ (d : Decision). d.type) e in
          (
            λ h. (fine, out.0 (sym same ∙ h)),
            λ (_, (result, value, read, first, says)).
                same ∙ out.1 (result, value, read, first, says),
          ))
  ]

  -- The backend allows a call exactly when the policy file is named and there, the executable is
  -- found, the process ends without failure, and its output is JSON whose first expression has a
  -- value that says so. Everything else, a failure of any step included, is not allowed.
  pub opa_decide-allow_iff :
      (policy : Policy) (tool_name : Text) (kwargs : Kwargs)
      → ((opa_decide system policy tool_name kwargs).type ≡ allow) ↔ (
          (policy.opa_policy ≢ [])
          × (system.which policy.opa_command ≡ true)
          × (system.exists policy.opa_policy ≡ true)
          × GivesAllow system (system.run (opa_argv system policy) tool_name kwargs))
  unfolding opa_decide
  opa_decide-allow_iff policy tool_name kwargs = ground (
    arith,
    ==_iff policy.opa_policy [],
    decision_of_run-allow_iff (system.run (opa_argv system policy) tool_name kwargs),
  )
