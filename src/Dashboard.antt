-- ===== src/Dashboard.antt =====
-- apps/dashboard/src: the code of the dashboard that is more than a view.
pub mod ExportCsv
