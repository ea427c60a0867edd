-- ===== src/Notification.antt =====
-- services/notification-service: what it sends, over which channels, and to which addresses.
pub mod Ip
pub mod UrlValidator
pub mod Channel
pub mod Format
pub mod Retry
pub mod Slack
pub mod Telegram
pub mod Email
pub mod Manager
pub mod Rendered
pub mod Consumer
