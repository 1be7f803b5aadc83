-- ===== src/Config/Parse.antt =====
-- config.py: the parsing of the YAML files, once their secret references are resolved.
--
-- An exception's message is left out. A duration is in thousandths of a second.
pub mod Numbers
pub mod Names
pub mod Route
pub mod Routes
pub mod Definitions
pub mod Retention
pub mod RouterSection
pub mod Load
