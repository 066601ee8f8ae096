-- ===== src/Service.antt =====
-- What the services have in common: the task that answers packets, and the start of all tasks.
pub mod Task
pub mod Start
