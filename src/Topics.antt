-- ===== src/Topics.antt =====
-- The topics graph of a wiki: archive/code/src/wiki/topics/yaml.ts and dag.ts, and the commands of
-- archive/code/src/cli/commands/topics/.
pub mod File
pub mod Dag
pub mod Commands
mod Tests
