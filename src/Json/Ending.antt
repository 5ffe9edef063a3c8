-- ===== src/Json/Ending.antt =====
-- `Parse` of internal/orderedjson always comes to an end: the fuel of the model is enough.
mod Strings
mod Numbers
mod Values
pub use Values.*
