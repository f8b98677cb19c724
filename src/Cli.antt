-- ===== src/Cli.antt =====
-- cli.py: the session that runs a search, and the commands of its user.
pub mod Commands
pub mod Details
pub mod State
pub mod Session
pub mod Prompt
