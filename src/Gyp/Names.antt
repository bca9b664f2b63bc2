-- ===== src/Gyp/Names.antt =====
-- Tests on single strings of src/tools/pylib_dbg/input.py: `IsPathSection`, `IsStrCanonicalInt` and
-- `FindEnclosingBracketGroup`, with the decimal form that `str` gives an int.
pub mod Decimal
pub mod Brackets
pub mod Groups
pub mod Sections
