-- ===== src/GroupManager.antt =====
-- group_manager.py: the moderation of groups.
pub mod Window
pub mod Admins
pub mod Store
pub mod Joining
pub mod Warnings
pub mod Durations
pub mod Commands
pub mod Messages
