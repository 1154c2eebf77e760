-- ===== src/Config.antt =====
-- config/: configuration variables, their table, and the YAML files that set them.
pub mod Yaml
pub mod Cast
pub mod Var
pub mod Tree
pub mod Registry
mod Sample
mod SampleMap
mod Examples
