-- ===== src/Lib.antt =====
-- RuneGuard: the decisions, the audit log and the system call filter of the Python package
-- `runeguard`, as functions, and what they guarantee.
--
-- RuneGuard stands between an agent and the machine. Every tool call is put to a policy
-- (runeguard/policy.py), which answers with a decision (runeguard/decision.py): allow, block, or ask
-- a human. The policy decides by its own lists, or hands the call to the Open Policy Agent
-- (runeguard/opa.py). Each decision is written (runeguard/logger.py), with its secrets cut short
-- (runeguard/redaction.py), to a hash-chained log (runeguard/integrity.py), whose segments a
-- manifest lists (runeguard/audit_compliance.py). A tool is called behind the decision
-- (runeguard/proxy.py): the program's own MCP server does so (runeguard/mcp/server.py), and a proxy
-- checks the calls for another server (runeguard/mcp/proxy.py). A command can be run in a container
-- (runeguard/core/docker.py) or under Landlock (runeguard/core/landlock.py), and a child process can
-- be put under a seccomp filter that is built from the same policy (runeguard/seccomp/filter.py).
-- Other programs ask a daemon for decisions (runeguard/daemon.py), the tools of an agent are wrapped
-- (runeguard/agents), and so is the agent itself (runeguard/agent.py). A diff can be searched for
-- risks (runeguard/diff_risk.py), and a repository (runeguard/scan.py).
--
-- Files:
--   Prelude       shared names: Python's `==`, texts as lists of code points and the methods of
--                 `str`, lists measured by native numbers, integers and their decimal texts.
--   Outcome       a Python call that returns or raises.
--   Effects       a Python call that also acts on a world; Keeping is what it leaves true there.
--   Regex         Python's `re`, as far as the program uses it.
--   Json          the values that `json` reads and writes.
--   Decision      runeguard/decision.py.
--   Policy        runeguard/policy.py. Settings is the loaded policy; Glob is `fnmatch`, Words is
--                 `shlex.split`, Url is `urlparse(…).hostname` and FilePath is `pathlib.Path`, as
--                 far as the policy uses them; Domains, Commands and Protected are its helpers
--                 `_is_allowed_domain`, `_matches_command_pattern` and `_is_protected_path` with
--                 what they call; Loading is `normalize_policy_mapping` and
--                 `PolicyConfig.from_mapping`, and Validating is `Policy._validate`; Decide is
--                 `Policy.decide`, and Arguments takes its keywords out of a dict. Loaded, StrayKeys,
--                 Allowing, Settled, Verdict, Matching and Tightening hold its theorems.
--   Opa           runeguard/opa.py: `OpaPolicyBackend.decide`; FailsClosed holds its theorem.
--   Approval      runeguard/approval.py: what a human has answered in this session.
--   ChildEnv      runeguard/core/sandbox.py and runeguard/core/interceptor.py: `filter_child_env`
--                 and `RuneGuardInterceptor.env`.
--   Correlation   runeguard/correlation.py: the turn of the agent that a record belongs to.
--   Redaction     runeguard/redaction.py; Bounds holds its theorem.
--   Logger        runeguard/logger.py, and `audit_record` of runeguard/audit.py.
--   ToolProxy     runeguard/proxy.py: `RuneGuardProxy.call`; Gate holds its theorem.
--   Daemon        runeguard/daemon.py: `RuneGuardDaemon`; Answers holds its theorem.
--   Agents        runeguard/agents/base.py and runeguard/agents/openai_tools.py. Codex is
--                 runeguard/agents/openai_codex.py, and Running is runeguard/agent.py; Guarding and
--                 Running/Cleared hold their theorems.
--   Mcp           runeguard/mcp. Messages, Server and Serving are runeguard/mcp/server.py: its
--                 answers, its handler and the theorem, which rests on Cleared. Proxy, Checking and
--                 Client are runeguard/mcp/proxy.py: what it reads off a call, its decisions and
--                 its loop; Addresses, Forwarding and Relaying hold the theorems. Inspecting is
--                 runeguard/mcp/inspect.py.
--   Docker        runeguard/core/docker.py: the arguments and mounts of `docker run`. Workspace is
--                 the filtered copy and Running is `DockerSandboxRunner.run`; Restricted,
--                 Mounts, Filtering and Refusing hold the theorems.
--   Landlock      runeguard/core/landlock.py: `apply_landlock` and the child. Access has the rights
--                 and Running the runner; Restricted and Fallback hold the theorems.
--   Integrity     runeguard/integrity.py. Runtime is what it takes from `hashlib`, `hmac` and
--                 `json`; Envelope has the digests `_digest` and `_legacy_digest` and the reading
--                 of envelopes; Log is the class `TamperEvidentLog` and Verify is `verify_log`.
--                 Chain, Growth, Appending, Runs, Material, Hashed, Collisions and Tampering hold
--                 its theorems.
--   Retention     runeguard/audit_compliance.py: the manifest and its writing. Verifying is
--                 `verify_retention`, and Retained holds its theorems. Directory, Envelopes and
--                 Appending are `ComplianceAuditLog`. Sorting, Rotating and Continuing hold what is
--                 proved of its rotation; Tails, Stepping, Carried, Ending and Succeeding, of its
--                 `append`. Exporting is `LocalWORMExporter.export`, and Exported holds its theorems.
--   Audit         runeguard/audit.py: `build_report`, and `_md`; Summary is `summarize_audit_log`
--                 and the summary for a pull request. Totals and Balanced hold the theorems.
--   DiffRisk      runeguard/diff_risk.py, with its lists in Patterns; Scanning, Flagging and
--                 Unrepeated hold its theorems.
--   Scan          runeguard/scan.py, with its patterns in Patterns; Reported holds its theorem.
--   Seccomp       runeguard/seccomp/filter.py. Instructions and Filter assemble the program;
--                 Machine says what the kernel does with one; Verdicts and Encoding hold the
--                 theorems.
--   Tests         concrete policies, calls, logs and system calls that the theorems are run at.
--
-- State. A log file is the list of its lines, each with the break at its end, which only the last can
-- lack; an append returns the file after it, and goes on in a last line that has no break. The clock
-- is an argument. The answers of a session are two lists that stand for the two sets. A policy does
-- not change. What depends on the machine (the home directory, symbolic links, the `opa` program)
-- is an argument too. A call that raises is `raised`. Where a call acts as well, it takes a world to
-- a result and the world after it, also where it raises; a `PermissionError` is told from the other
-- exceptions there. The world is a parameter, but for the MCP server, where it is the history of
-- what was done, for the child under Landlock, where it is the list of the calls that succeeded, and
-- for the compliance log, where it is the directory. A dict that holds arguments of a
-- tool is JSON.
--
-- Numbers. A sequence number is a Python integer and has no bound. The fields of a BPF instruction
-- have 16, 8, 8 and 32 bits, and are packed with the remainders written out.
--
-- Fuel. A pattern of `fnmatch` is read with its length as fuel: each round drops a character. A
-- repetition of a regular expression has the length of the text and one more: each round takes a
-- character; the matches in a text are searched with its length as fuel, a character or more a
-- round. All other loops are recursions on their list.
--
-- Hypotheses. The theorems on the log take a lawful runtime: digests and dumped values are printed
-- ASCII, and a dumped value is one line that is read back as itself. The theorem on the compliance
-- log takes that days can be added to a time. That the hash has no collisions is not assumed: a
-- theorem gives the collision instead. `str.lower` and `str.strip` are those of ASCII and Latin-1.
-- `urlparse` checks neither an internationalised host nor one in brackets, and the resolving of a
-- path that the policy is asked about does not raise, as it would on a NUL or on links in a circle.
--
-- Values that are no texts. Under a key that `Policy.decide` knows, a value of a dict that is neither
-- a text nor `null` raises, and so does a `null` command, also where the tool in question does not
-- read the key; another `null` is taken as absent. A command for the shell of the MCP server that is
-- no text raises. A key of a counter that is no text stands as its text, and one that cannot be
-- hashed, a list or a dict, does so too.
--
-- Not modelled: reading a policy file, the accepting of connections, the rendering of a report as
-- Markdown or HTML, the set-up of a repository and the command line. Only arguments by keyword that
-- are JSON are seen of a wrapped tool. The classes of characters of a regular expression are those of
-- ASCII. The error messages of `verify_log` and `verify_retention` are constructors with the values
-- that they name.
pub mod Prelude
pub mod Outcome
pub mod Regex
pub mod Landlock
pub mod Json
pub mod Daemon
pub mod Decision
pub mod Policy
pub mod Opa
pub mod Agents
pub mod Approval
pub mod ChildEnv
pub mod Redaction
pub mod Effects
pub mod Logger
pub mod ToolProxy
pub mod Mcp
pub mod Correlation
pub mod DiffRisk
pub mod Docker
pub mod Integrity
pub mod Retention
pub mod Audit
pub mod Scan
pub mod Seccomp
pub mod Tests
