-- ===== src/AudioSocket.antt =====
-- `src/ast_socket`: Asterisk's AudioSocket protocol over a byte stream.
pub mod Net
pub mod Reader
pub mod Writer
pub mod Open
