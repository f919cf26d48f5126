-- ===== src/Lsh.antt =====
-- The shell `lsh`: its string and list helpers, the parser, the job lists and the execution of jobs.
mod Tests
pub mod Utility
pub mod Job
pub mod Parser
pub mod Execute
pub mod Interpret
pub mod Shell
