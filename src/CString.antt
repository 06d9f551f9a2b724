-- ===== src/CString.antt =====
-- The functions of src/lib/string.c, a child for each family. A pointer into an object is the list
-- of the bytes from it to the object's end, and an access past that end is `none`.
pub mod Copy
pub mod Search
pub mod Numerals
pub mod Atoi
pub mod Format
pub mod Reverse
