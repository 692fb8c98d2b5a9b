-- ===== src/Tests.antt =====
-- src/tests: runs of the code, and the theorems at concrete inputs.
pub mod FormatExamples
pub mod ShapeExamples
pub mod ShapeWitnesses
pub mod LexerRuns
pub mod LexerExamples
pub mod ParserExamples
pub mod StoreExamples
pub mod KeyTreeExamples
