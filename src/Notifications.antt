-- ===== src/Notifications.antt =====
-- The notification components: helper/opatchy_helper/notification_types.py, notification_batch.py,
-- notification_policy.py, conditional_security_policy.py and notifications.py.
pub mod Types
pub mod Batch
pub mod Freshness
pub mod Conditional
pub mod Policy
pub mod Dispatch
