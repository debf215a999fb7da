-- ===== src/Settings.antt =====
-- src/core/python/core/settingsstore/settingsstore.py: settings as a tree of variants, merged and
-- compared recursively.
pub mod Variant
pub mod Number
pub mod Fields
pub mod Merge
pub mod Comments
pub mod Delta
pub mod Access
pub mod Files
