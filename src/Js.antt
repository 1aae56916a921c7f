-- ===== src/Js.antt =====
-- What the program uses of JavaScript: texts, numbers as texts, UTF-8 and base64.
pub mod Text
pub mod Double
pub mod Number
pub mod Utf8
pub mod Base64
pub mod Value
