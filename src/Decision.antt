-- ===== src/Decision.antt =====
-- runeguard/decision.py: what a policy answers to a request.
use runeguard.Prelude.{Text}

pub data DecisionType : Type 0 where
  allow block require_approval : DecisionType

pub DecisionType-discrete : Discrete DecisionType
DecisionType-discrete = hlevel

pub record Decision : Type 0 where
  pub type : DecisionType
  pub reason : Text
