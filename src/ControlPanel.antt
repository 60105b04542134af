-- ===== src/ControlPanel.antt =====
-- crates/pgtest-wire/src/control_panel: the commands that the `pgtest` database understands.
pub mod Statement
pub mod Protocol
