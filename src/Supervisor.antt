-- ===== src/Supervisor.antt =====
-- The supervisor's page (frontend/src/supervisor).
pub mod ViewModel
pub mod HaulEfficiency
