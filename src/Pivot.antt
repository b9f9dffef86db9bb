-- ===== src/Pivot.antt =====
-- PivotZone/pivotzoneutils.py: the coordinator of a zone.
pub mod Services
mod Tests
