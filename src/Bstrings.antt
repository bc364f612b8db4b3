-- ===== src/Bstrings.antt =====
-- src/bstrlib_helper.c: the string lists, the tests on numbers and the tokens that the program adds
-- to its string library. A bstring is a list of bytes; the library's own calls are parameters.
pub mod Entries
pub mod Sorting
pub mod Tokens
pub mod Number
pub mod Removal
mod Tests
