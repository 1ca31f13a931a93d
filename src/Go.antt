-- ===== src/Go.antt =====
-- What the program uses of Go and its standard library: errors as values, readers over byte
-- slices, little-endian numbers, and the texts of binary digits that the codecs keep flags in.
pub mod Result
pub mod Reader
pub mod Words
pub mod Text
pub mod Lines
pub mod Float
