-- ===== src/Policy/Settled.antt =====
-- The order of the checks of `Policy.decide` (runeguard/policy.py): each blocks or passes.
use runeguard.Prelude.{
  Text, Bool, true, false, [], Option, none, some, ◌≡◌, ◌↔◌, ◌==◌, arith, list_eq, nat_eq,
  if◌then◌else◌, ◌⊎◌, refl,
}
use runeguard.Outcome.{Outcome, ok, raised, ◌>>=◌}
use runeguard.Decision.{Decision, allow, block}
use runeguard.Policy.Url.{hostname}
use runeguard.Policy.Settings.{Policy}
use runeguard.Policy.FilePath.{System}
use runeguard.Policy.Decide.{
  Kwargs, get_text, check_file, check_shell, check_domain, check_network, check_mcp, settle,
}
use runeguard.Policy.Allowing.{allowed}

-- A check returns no allowing decision.
abbrev pub Blocks : Option Decision → Type 0
Blocks none = Unit
Blocks (some d) = d.type ≡ block

abbrev pub BlocksOutcome : Outcome (Option Decision) → Type 0
BlocksOutcome raised = Unit
BlocksOutcome (ok o) = Blocks o

pub guarded-Blocks : (b : Bool) (o : Option Decision) → Blocks o → Blocks (if b then o else none)
guarded-Blocks true o h = h
guarded-Blocks false o h = tt

pub guarded-BlocksOutcome :
    (b : Bool) (o : Outcome (Option Decision))
    → BlocksOutcome o
    → BlocksOutcome (if b then o else ok none)
guarded-BlocksOutcome true o h = h
guarded-BlocksOutcome false o h = tt

pub guarded-none_iff :
    (b : Bool) (o : Option Decision) → ((if b then o else none) ≡ none) ↔ ((b ≡ false) ⊎ (o ≡ none))
guarded-none_iff b o = ground arith

pub guarded-ok_none_iff :
    (b : Bool) (o : Outcome (Option Decision))
    → ((if b then o else ok none) ≡ ok none) ↔ ((b ≡ false) ⊎ (o ≡ ok none))
guarded-ok_none_iff b o = ground arith

-- The first decision counts, so that none may stand where the answer is to allow.
pub settled-allowed_iff :
    (f s m : Option Decision) (n : Outcome (Option Decision))
    → Blocks f
    → Blocks s
    → Blocks m
    → BlocksOutcome n
    → ((n >>= λ network. ok (settle f s network m)) ≡ ok allowed)
      ↔ ((f ≡ none) × (s ≡ none) × (n ≡ ok none) × (m ≡ none))
unfolding settle
settled-allowed_iff (some d) s m raised hf hs hm hn = ground arith
settled-allowed_iff (some d) s m (ok o) hf hs hm hn = ground arith
settled-allowed_iff none (some d) m raised hf hs hm hn = ground arith
settled-allowed_iff none (some d) m (ok o) hf hs hm hn = ground arith
settled-allowed_iff none none m raised hf hs hm hn = ground arith
settled-allowed_iff none none m (ok (some d)) hf hs hm hn = ground arith
settled-allowed_iff none none (some d) (ok none) hf hs hm hn = ground arith
settled-allowed_iff none none none (ok none) hf hs hm hn = ground arith

pub settled-type :
    (f s m : Option Decision) (n : Outcome (Option Decision)) (d : Decision)
    → Blocks f
    → Blocks s
    → Blocks m
    → BlocksOutcome n
    → (n >>= λ network. ok (settle f s network m)) ≡ ok d
    → d.type ≡ allow
    → d ≡ allowed
unfolding settle
settled-type f s m raised d hf hs hm hn h a = cc
settled-type (some e) s m (ok o) d hf hs hm hn h a = ground arith
settled-type none (some e) m (ok o) d hf hs hm hn h a = ground arith
settled-type none none m (ok (some e)) d hf hs hm hn h a = ground arith
settled-type none none (some e) (ok none) d hf hs hm hn h a = ground arith
settled-type none none none (ok none) d hf hs hm hn h a = ground arith

-- A check that returns only blocking decisions.
some-Blocks : (o : Option Decision) → ((d : Decision) → o ≡ some d → d.type ≡ block) → Blocks o
some-Blocks none h = tt
some-Blocks (some d) h = h d refl

module _ (system : System) (policy : Policy) (kwargs : Kwargs) where
  pub check_file-Blocks : Blocks (check_file system policy kwargs)
  unfolding check_file
  check_file-Blocks = some-Blocks (check_file system policy kwargs) go
    where
      go : (d : Decision) → check_file system policy kwargs ≡ some d → d.type ≡ block
      go d h = ground arith

  pub check_shell-Blocks : Blocks (check_shell system policy kwargs)
  unfolding check_shell
  check_shell-Blocks = some-Blocks (check_shell system policy kwargs) go
    where
      go : (d : Decision) → check_shell system policy kwargs ≡ some d → d.type ≡ block
      go d h = ground arith

  check_domain-Blocks : (url domain : Text) → Blocks (check_domain system policy url domain)
  unfolding check_domain
  check_domain-Blocks url domain = some-Blocks (check_domain system policy url domain) go
    where
      go : (d : Decision) → check_domain system policy url domain ≡ some d → d.type ≡ block
      go d h = ground arith

  pub check_network-Blocks : BlocksOutcome (check_network system policy kwargs)
  unfolding check_network
  check_network-Blocks = go (hostname (get_text kwargs.url))
    where
      go :
          (found : Outcome Text)
          → BlocksOutcome (
              found >>= λ name. ok (
                check_domain system policy
                  (get_text kwargs.url)
                  (if name == [] then get_text kwargs.host else name)))
      go raised = tt
      go (ok name) =
          check_domain-Blocks (get_text kwargs.url)
            (if name == [] then get_text kwargs.host else name)

  pub check_mcp-Blocks : Blocks (check_mcp system policy kwargs)
  unfolding check_mcp
  check_mcp-Blocks = some-Blocks (check_mcp system policy kwargs) go
    where
      go : (d : Decision) → check_mcp system policy kwargs ≡ some d → d.type ≡ block
      go d h = ground arith
