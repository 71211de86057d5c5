-- ===== src/State.antt =====
-- common/state/src: the offsets of the lines that were read, as spans of bytes.
pub mod Span
pub mod SpanVec
pub mod Codec
pub mod Table
pub mod Events
