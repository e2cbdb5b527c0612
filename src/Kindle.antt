-- ===== src/Kindle.antt =====
-- Send-to-Kindle: web_service/routes/send_to_kindle.py, the validators of
-- web_service/validation.py that it calls, and web_service/routes/resend_webhook.py.
pub mod Validation
pub mod Claims
pub mod Exclusion
pub mod Route
pub mod Recipient
pub mod Delivered
pub mod Webhook
pub mod Deliveries
