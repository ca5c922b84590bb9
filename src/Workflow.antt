-- ===== src/Workflow.antt =====
-- apps/workflow-alerts: the alerts that follow the scores of the risk engine.
pub mod Alerts
