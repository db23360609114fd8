-- ===== src/Text.antt =====
-- Python's `str` as a list of code points, with the built-in operations that the program uses:
-- `str.split`, `str.strip`, `str.join`, the decimal print and `int` of a run of digits.
-- A code point counts as white space and as a decimal digit where Python's `str.isspace` and the
-- `\d` of `re` say so (Unicode 14, the tables of Python 3.11).
pub mod Chars
pub mod Words
pub mod Decimal
pub mod Order
