-- ===== src/Std.antt =====
-- The parts of the C++ standard library that the program computes with: `int` and its texts,
-- `find` and `substr`, ordered maps, and the words and lines of a text stream.
pub mod Int
pub mod Text
pub mod Number
pub mod Map
pub mod Words
