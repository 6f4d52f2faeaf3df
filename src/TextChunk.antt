-- ===== src/TextChunk.antt =====
-- internal/textchunk: cutting documents into chunks for embedding.
pub mod Runes
pub mod Sentences
pub mod Windows
pub mod Paragraphs
pub mod Breaks
