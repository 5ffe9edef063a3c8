-- ===== src/Json/Parser.antt =====
-- `Parse` of internal/orderedjson/orderedjson.go on bytes. A suffix of the input stands for `pos`.
mod Reading
mod Strings
mod Numbers
mod Values
unfoldable pub use Reading.*
unfoldable pub use Strings.*
unfoldable pub use Numbers.*
unfoldable pub use Values.*
