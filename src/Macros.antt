-- ===== src/Macros.antt =====
-- auxtools-impl/src/lib.rs: the procedural macros, on the parts of the syntax tree that they look at.
-- `syn` has parsed the input; what `quote!` puts out is a record of the values that it inserts.
pub mod Signature
pub mod RoundTrip
pub mod Total
pub mod Inventory
pub mod Hook
pub mod Unpack
mod Tests
