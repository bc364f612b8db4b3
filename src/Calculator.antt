-- ===== src/Calculator.antt =====
-- src/calculator.c: the calculator that evaluates the formulas of a kernel file. `Chars` has the
-- classes of characters and tokens, `Lexer` the tokenizer, `Number` the numbers and their printing,
-- `Func` the functions, `Machine` the operators and the shunting-yard loop, `Settings` and `Commands`
-- the preferences, `Api` the entry point. `Formula` and `Value` describe formulas apart from the
-- code; the other modules relate the two.
pub mod Chars
pub mod Number
pub mod Func
pub mod Machine
pub mod Formula
pub mod Ranks
pub mod Stops
pub mod Pieces
pub mod Order
pub mod Value
pub mod Aggregates
pub mod Emits
pub mod Correct
pub mod Lexer
pub mod Settings
pub mod Commands
pub mod Api
mod Tests
