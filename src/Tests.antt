-- ===== src/Tests.antt =====
-- Runs of the theorems at concrete inputs.
mod Codec
mod Lawful
mod AuditLog
mod Adapters
mod Diffs
mod Confinement
mod Rotation
mod Segments
mod Exports
mod Repository
mod Servers
mod Archives
mod Reports
mod Settings
mod Mappings
mod Environments
mod Calls
mod Serving
mod Containers
mod Syscalls
