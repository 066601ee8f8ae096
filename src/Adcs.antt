-- ===== src/Adcs.antt =====
-- Services/source/adcs/adcs_service.c: the attitude determination and control system.
pub mod Answer
pub mod Files
pub mod Status
pub mod Settings
pub mod Program
pub mod Control
pub mod Telemetry
pub mod Config
pub mod App
pub mod Laws
