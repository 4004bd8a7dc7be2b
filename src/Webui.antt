-- ===== src/Webui.antt =====
-- internal/webui/server.go: the web interface, which shows the stored files to users who have logged
-- in, and serves single files to holders of the media token.
pub mod Paths
pub mod Session
pub mod Files
pub mod Pages
pub mod Handlers
mod Tests
