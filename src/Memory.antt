-- ===== src/Memory.antt =====
-- library/core/src/memory: the address-space objects.
pub mod Flags
pub mod Range
pub mod Layout
pub mod Purpose
pub mod Spans
pub mod Vmo
pub mod Mapping
pub mod Vmar
pub mod Space
pub mod VSpace
pub mod Control
pub mod FreeSpace
