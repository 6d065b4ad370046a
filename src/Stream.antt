-- ===== src/Stream.antt =====
-- The per-chat event stream, hub/internal/chatstream/hub.go.
pub mod Frame
pub mod Ring
pub mod Subscription
pub mod Hub
