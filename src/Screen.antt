-- ===== src/Screen.antt =====
-- The text functions of the terminal screen (clientf/terminal_screen.cpp).
pub mod Utf8
pub mod Units
pub mod Safe
pub mod Rows
pub mod Encoding
pub mod TooWide
