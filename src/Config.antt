-- ===== src/Config.antt =====
-- src/config_parser.h and src/config_parser.c.
pub mod Host
pub mod Forward
pub mod Fields
pub mod Parser
pub mod Writer
pub mod Json
