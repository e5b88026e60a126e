-- ===== src/Serialization.antt =====
-- src/serialization: the bytes that a compiled program is stored as.
-- Packer is what the code uses of thirdparty/datapacker.hpp, Functions the functions as values,
-- Serializer and Deserializer the two classes.
pub mod Packer
pub mod Functions
pub mod Serializer
pub mod Deserializer
pub mod Chunks
pub mod Bodies
pub mod Written
pub mod Steps
pub mod Scalars
pub mod Trees
pub mod Pools
pub mod Nodes
pub mod Induction
pub mod Blocks
pub mod StringsRead
pub mod Layout
pub mod Globals
pub mod Symbols
pub mod SymbolsRead
pub mod FileHeader
pub mod FileRead
pub mod RoundTrip
mod Tests
