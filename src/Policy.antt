-- ===== src/Policy.antt =====
-- runeguard/policy.py: the loaded policy and its decisions.
pub mod Settings
pub mod Glob
pub mod Words
pub mod Url
pub mod FilePath
pub mod Domains
pub mod Commands
pub mod Protected
pub mod Loading
pub mod Validating
pub mod Loaded
pub mod StrayKeys
pub mod Decide
pub mod Allowing
pub mod Arguments
pub mod Settled
pub mod Verdict
pub mod Matching
pub mod Tightening
