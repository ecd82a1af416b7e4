-- ===== src/Webhook.antt =====
-- apps/api-gateway/api_gateway/routers/webhook_gitlab.py: from a webhook of GitLab to a run and a job.
pub mod Events
pub mod Route
pub mod Intake
pub mod Tests
