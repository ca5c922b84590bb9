-- ===== src/Jobs.antt =====
-- apps/jobs-worker: the workers behind the RabbitMQ queues.
pub mod Reconcile
pub mod Billing
pub mod Stripe
pub mod Workers
pub mod Webhook
pub mod Alert
pub mod Digest
