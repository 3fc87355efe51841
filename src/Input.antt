-- ===== src/Input.antt =====
-- InputField, the line editor of the interface (clientf/terminal_ui.cpp and .h).
pub mod Field
pub mod Edits
pub mod Typed
