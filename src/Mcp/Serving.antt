-- ===== src/Mcp/Serving.antt =====
-- What the server of runeguard/mcp/server.py has done after any input.
use runeguard.Prelude.{
  Text, codes, Bool, true, false, List, [], ◌∷◌, ◌++◌, ◌==◌, list_eq, nat_eq, if◌then◌else◌, Option,
  none, some, strip, starts_with, ◌≡◌, refl, Bool-cases, inl, inr, ◌⊎◌,
}
use runeguard.Json.{
  Json, null, boolean, int, float, str, array, object, Fields, end, field, get, str_of,
}
use runeguard.Policy.Loading.{find}
use runeguard.Logger.{LogOptions, AuditFields}
use runeguard.Effects.{Action, ◌>>=◌, ◌>>◌, pure, fail}
use runeguard.Effects.Keeping.{bind-Keeps, if-Keeps}
use runeguard.ToolProxy.{Judge, call}
use runeguard.Prelude.Int.{negsuc}
use runeguard.Mcp.Messages.{error_response, result_message, get_or, dict_or_empty}
use runeguard.Mcp.Cleared.{IsGuarded, IsSafe, IsSafeIfCleared, call-IsSafe}
use runeguard.Mcp.Server.{
  read_text, write_text, run_shell, History, Surroundings, history_sink, perform, takes_only,
  no_more, text_or_fail, required, read_tool, write_tool, shell_tool, initialized, audit_text,
  audit_fields_of, read_file, write_file, shell, run_tool, handle_tool_call, call_of_params, handle,
  handle_method, handle_message, serve,
}

module _ (outside : Surroundings) (judge : Judge) (options : LogOptions) where
  text_or_fail-cases :
      (o : Option Json)
      → ((text : Text) × (o ≡ some (str text)) × (text_or_fail o ≡ pure text))
        ⊎ (text_or_fail o ≡ fail)
  unfolding text_or_fail
  text_or_fail-cases (some (str text)) = inl (text, refl, refl)
  text_or_fail-cases none = inr refl
  text_or_fail-cases (some null) = inr refl
  text_or_fail-cases (some (boolean b)) = inr refl
  text_or_fail-cases (some (int n)) = inr refl
  text_or_fail-cases (some (float text)) = inr refl
  text_or_fail-cases (some (array items)) = inr refl
  text_or_fail-cases (some (object fields)) = inr refl

  required-IsSafeIfCleared :
      {B : Type 0} (tool_name key : Text) (kwargs : Fields) (f : Text → Action History B)
      → ((text : Text)
          → find key kwargs ≡ some (str text)
          → IsSafeIfCleared outside judge options tool_name kwargs (f text))
      → IsSafeIfCleared outside judge options tool_name kwargs (required key kwargs >>= f)
  unfolding required
  required-IsSafeIfCleared tool_name key kwargs f safe h c g =
      elim (text_or_fail-cases (find key kwargs)) [
        | inl (text, found, e) ↦ rw e (safe text found h c g)
        | inr e ↦ rw e g
      ]

  takes_only-IsSafeIfCleared :
      {B : Type 0} (tool_name : Text) (names : List Text) (kwargs : Fields) (m : Action History B)
      → IsSafeIfCleared outside judge options tool_name kwargs m
      → IsSafeIfCleared outside judge options tool_name kwargs (takes_only names kwargs >> m)
  unfolding takes_only
  takes_only-IsSafeIfCleared tool_name names kwargs m safe h c g =
      elim (Bool-cases (no_more names kwargs)) [ inl e ↦ rw e (safe h c g) | inr e ↦ rw e g ]

  read_tool-IsSafeIfCleared :
      (kwargs : Fields)
      → IsSafeIfCleared outside judge options (codes "read_file") kwargs (read_tool outside kwargs)
  unfolding read_tool perform
  read_tool-IsSafeIfCleared kwargs =
      takes_only-IsSafeIfCleared (codes "read_file") (codes "path" ∷ []) kwargs
        (required (codes "path") kwargs >>= λ path. perform outside (read_text path))
        (required-IsSafeIfCleared (codes "read_file") (codes "path") kwargs
          (λ path. perform outside (read_text path))
          (λ path e h c g. (c (read_text path) (refl, e), g)))

  write_tool-IsSafeIfCleared :
      (kwargs : Fields)
      → IsSafeIfCleared outside judge options
          (codes "write_file")
          kwargs
          (write_tool outside kwargs)
  unfolding write_tool perform
  write_tool-IsSafeIfCleared kwargs =
      takes_only-IsSafeIfCleared (codes "write_file") (codes "path" ∷ codes "content" ∷ []) kwargs
        (required (codes "path") kwargs >>= λ path. required (codes "content") kwargs >>= λ content.
          perform outside (write_text path content))
        (required-IsSafeIfCleared (codes "write_file") (codes "path") kwargs
          (λ path. required (codes "content") kwargs >>= λ content.
            perform outside (write_text path content))
          (λ path e.
            required-IsSafeIfCleared (codes "write_file") (codes "content") kwargs
              (λ content. perform outside (write_text path content))
              (λ content e' h c g. (c (write_text path content) (refl, e, e'), g))))

  shell_tool-IsSafeIfCleared :
      (kwargs : Fields)
      → IsSafeIfCleared outside judge options (codes "shell") kwargs (shell_tool outside kwargs)
  unfolding shell_tool perform
  shell_tool-IsSafeIfCleared kwargs =
      takes_only-IsSafeIfCleared (codes "shell") (codes "command" ∷ []) kwargs
        (required (codes "command") kwargs >>= λ command. perform outside (run_shell command))
        (required-IsSafeIfCleared (codes "shell") (codes "command") kwargs
          (λ command. perform outside (run_shell command))
          (λ command e h c g. (c (run_shell command) (refl, e), g)))

  -- A call, and then a text made of its result.
  tool-IsSafe :
      {A B : Type 0} (tool_name : Text) (fn : Fields → Action History A) (given : AuditFields)
      (kwargs : Fields) (f : A → B)
      → IsSafeIfCleared outside judge options tool_name kwargs (fn kwargs)
      → IsSafe outside judge options
          (call (history_sink outside) judge options tool_name fn given kwargs >>= λ a. pure (f a))
  tool-IsSafe tool_name fn given kwargs f safe =
      bind-Keeps (IsGuarded outside judge options)
        (call (history_sink outside) judge options tool_name fn given kwargs) (λ a. pure (f a))
        (call-IsSafe outside judge options tool_name fn given kwargs safe) (λ a h g. g)

  read_file-IsSafe :
      (kwargs : Fields) → IsSafe outside judge options (read_file outside judge options kwargs)
  unfolding read_file
  read_file-IsSafe kwargs =
      tool-IsSafe (codes "read_file") (read_tool outside)
        (audit_fields_of (codes "read_file") none (audit_text (codes "path") kwargs)) kwargs
        (λ text. some text) (read_tool-IsSafeIfCleared kwargs)

  write_file-IsSafe :
      (kwargs : Fields) → IsSafe outside judge options (write_file outside judge options kwargs)
  unfolding write_file
  write_file-IsSafe kwargs =
      tool-IsSafe (codes "write_file") (write_tool outside)
        (audit_fields_of (codes "write_file") none (audit_text (codes "path") kwargs)) kwargs
        (λ text. some (codes "Written: " ++ str_of outside.show (get (codes "path") kwargs)))
        (write_tool-IsSafeIfCleared kwargs)

  shell-IsSafe :
      (kwargs : Fields) → IsSafe outside judge options (shell outside judge options kwargs)
  unfolding shell
  shell-IsSafe kwargs =
      tool-IsSafe (codes "shell") (shell_tool outside)
        (audit_fields_of (codes "shell") (audit_text (codes "command") kwargs) none) kwargs
        (λ text. some text) (shell_tool-IsSafeIfCleared kwargs)

  run_tool-IsSafe :
      (name : Json) (arguments : Fields)
      → IsSafe outside judge options (run_tool outside judge options name arguments)
  unfolding run_tool
  run_tool-IsSafe (str tool_name) arguments =
      if-Keeps (IsGuarded outside judge options) (tool_name == codes "read_file")
        (read_file outside judge options arguments)
        (if tool_name == codes "write_file"
          then write_file outside judge options arguments
          else if tool_name == codes "shell"
          then shell outside judge options arguments
          else pure none)
        (read_file-IsSafe arguments)
        (if-Keeps (IsGuarded outside judge options) (tool_name == codes "write_file")
          (write_file outside judge options arguments)
          (if tool_name == codes "shell" then shell outside judge options arguments else pure none)
          (write_file-IsSafe arguments)
          (if-Keeps (IsGuarded outside judge options) (tool_name == codes "shell")
            (shell outside judge options arguments) (pure none) (shell-IsSafe arguments)
            (λ h g. g)))
  run_tool-IsSafe null arguments = λ h g. g
  run_tool-IsSafe (boolean b) arguments = λ h g. g
  run_tool-IsSafe (int n) arguments = λ h g. g
  run_tool-IsSafe (float text) arguments = λ h g. g
  run_tool-IsSafe (array items) arguments = λ h g. g
  run_tool-IsSafe (object fields) arguments = λ h g. g

  handle_tool_call-IsSafe :
      (msg_id : Json) (params : Fields)
      → IsSafe outside judge options (handle_tool_call outside judge options msg_id params)
  unfolding handle_tool_call
  handle_tool_call-IsSafe msg_id params h g =
      run_tool-IsSafe (get_or (codes "name") (str []) params)
        (dict_or_empty (get_or (codes "arguments") (object end) params)) h g

  call_of_params-IsSafe :
      (msg_id params : Json)
      → IsSafe outside judge options (call_of_params outside judge options msg_id params)
  unfolding call_of_params
  call_of_params-IsSafe msg_id (object params) = handle_tool_call-IsSafe msg_id params
  call_of_params-IsSafe msg_id null = λ h g. g
  call_of_params-IsSafe msg_id (boolean b) = λ h g. g
  call_of_params-IsSafe msg_id (int n) = λ h g. g
  call_of_params-IsSafe msg_id (float text) = λ h g. g
  call_of_params-IsSafe msg_id (array items) = λ h g. g
  call_of_params-IsSafe msg_id (str text) = λ h g. g

  handle_method-IsSafe :
      (msg_id : Json) (method : Json) (msg : Fields)
      → IsSafe outside judge options (handle_method outside judge options msg_id method msg)
  unfolding handle_method
  handle_method-IsSafe msg_id (str method) msg =
      if-Keeps (IsGuarded outside judge options) (method == codes "initialize")
        (pure (some (initialized outside judge options msg_id)))
        (if method == codes "tools/list" then listed else calling) (λ h g. g)
        (if-Keeps (IsGuarded outside judge options) (method == codes "tools/list") listed calling
          (λ h g. g)
          (if-Keeps (IsGuarded outside judge options) (method == codes "tools/call") called other
            (bind-Keeps (IsGuarded outside judge options)
              (call_of_params outside judge options msg_id params)
              (λ response. pure (some response)) (call_of_params-IsSafe msg_id params)
              (λ response h g. g))
            (if-Keeps (IsGuarded outside judge options)
              (starts_with method (codes "notifications/")) (pure none) (pure (some unknown))
              (λ h g. g) (λ h g. g))))
    where
      params : Json
      params = get_or (codes "params") (object end) msg

      unknown : Json
      unknown = error_response msg_id (negsuc 32600) (codes "Method not found: " ++ method)

      listed : Action History (Option Json)
      listed = pure (
          some
            (result_message msg_id (object (field (codes "tools") outside.tool_definitions end))))

      called : Action History (Option Json)
      called =
          call_of_params outside judge options msg_id params >>= λ response. pure (some response)

      other : Action History (Option Json)
      other = if starts_with method (codes "notifications/") then pure none else pure (some unknown)

      calling : Action History (Option Json)
      calling = if method == codes "tools/call" then called else other
  handle_method-IsSafe msg_id null msg = λ h g. g
  handle_method-IsSafe msg_id (boolean b) msg = λ h g. g
  handle_method-IsSafe msg_id (int n) msg = λ h g. g
  handle_method-IsSafe msg_id (float text) msg = λ h g. g
  handle_method-IsSafe msg_id (array items) msg = λ h g. g
  handle_method-IsSafe msg_id (object fields) msg = λ h g. g

  handle_message-IsSafe :
      (msg : Option Json) → IsSafe outside judge options (handle_message outside judge options msg)
  unfolding handle_message handle
  handle_message-IsSafe (some (object msg)) =
      handle_method-IsSafe (get (codes "id") msg) (get_or (codes "method") (str []) msg) msg
  handle_message-IsSafe none = λ h g. g
  handle_message-IsSafe (some null) = λ h g. g
  handle_message-IsSafe (some (boolean b)) = λ h g. g
  handle_message-IsSafe (some (int n)) = λ h g. g
  handle_message-IsSafe (some (float text)) = λ h g. g
  handle_message-IsSafe (some (str text)) = λ h g. g
  handle_message-IsSafe (some (array items)) = λ h g. g

  -- Whatever lines the server reads, and from any history in which it holds: each operation that
  -- was performed, on a file or in the shell, was asked for by a tool call that the judge
  -- allowed, and directly before it that decision was logged without failure.
  pub serve-IsGuarded :
      (lines : List Text) (history : History)
      → IsGuarded outside judge options history
      → IsGuarded outside judge options (serve outside judge options lines history).1
  unfolding serve
  serve-IsGuarded [] history g = g
  serve-IsGuarded (raw ∷ lines) history g =
      serve-IsGuarded lines (if strip raw == [] then history else after) (go (strip raw == []))
    where
      after : History
      after = (handle_message outside judge options (outside.loads (strip raw)) history).1

      go : (b : Bool) → IsGuarded outside judge options (if b then history else after)
      go true = g
      go false = handle_message-IsSafe (outside.loads (strip raw)) history g
