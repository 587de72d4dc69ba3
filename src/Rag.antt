-- ===== src/Rag.antt =====
-- pkg/ai/rag: documents, their chunks and the chunker.
pub mod Metadata
pub mod Chunker
pub mod RetrievalTrace
pub mod Retriever
