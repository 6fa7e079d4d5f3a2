-- ===== src/Py.antt =====
-- The parts of Python that the sources use: JSON values, exceptions, dictionaries, paths.
pub mod Value
pub mod Result
pub mod Dict
pub mod Text
pub mod Json
pub mod Indent
pub mod Path
pub mod SortedSet
pub mod Equal
