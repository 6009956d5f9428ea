-- ===== src/Seccomp.antt =====
-- runeguard/seccomp/filter.py: the seccomp-BPF program that a policy is turned into.
pub mod Instructions
pub mod Filter
pub mod Machine
pub mod Encoding
pub mod Verdicts
