-- ===== src/Audit.antt =====
-- The audit trail: app/services/audit_service.py.
pub mod Tracker
pub mod Sanitize
pub mod Log
