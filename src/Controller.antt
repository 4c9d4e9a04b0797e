-- ===== src/Controller.antt =====
-- internal/controller: the control loop and its parts.
pub mod Host
pub mod Pending
pub mod Match
pub mod CloudInit
pub mod ScaleUp
pub mod Drain
pub mod Options
pub mod ScaleDown
pub mod Run
