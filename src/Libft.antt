-- ===== src/Libft.antt =====
-- The part of libft/src that the allocator calls.
pub mod Memory
pub mod Text
pub mod Chars
pub mod Numbers
pub mod Sorting
pub mod Partition
pub mod Lists
pub mod Strings
pub mod Split
pub mod Lines
pub mod Output
mod Tests
