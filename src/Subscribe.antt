-- ===== src/Subscribe.antt =====
-- The Subscribe stream of pkg/mls/api/v1/subscribe.go.
pub mod Frames
pub mod Writer
