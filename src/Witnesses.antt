-- ===== src/Witnesses.antt =====
-- Concrete runs of the development: the theorems at inputs that meet their hypotheses, and tests.
mod Permissions
mod Tree
mod Streams
mod Paths
mod Turns
mod Records
mod Names
mod Prompts
mod Lines
mod Events
mod Execution
mod Exports
mod Loops
mod Revoking
mod Asking
mod Caps
