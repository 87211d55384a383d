-- ===== src/Py.antt =====
-- What the source uses of Python and its standard library.
pub mod Exc
pub mod Text
pub mod Int
pub mod Value
pub mod Dict
