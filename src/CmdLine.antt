-- ===== src/CmdLine.antt =====
-- src/blocxx/CmdLineParser.cpp: the options of a command line, parsed and asked for, and their usage
-- text.
pub mod Options
pub mod Parse
pub mod Usage
