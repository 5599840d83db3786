-- ===== src/Fs.antt =====
-- fs/: files and directories that are served (fs.hpp, dir_reader.cpp), their types (mimetypes.cpp) and
-- the handler that serves them (static_serve.cpp).
pub mod File
pub mod Mimetypes
pub mod Range
pub mod Static
pub mod Paths
pub mod Partial
pub mod Ranges
mod Tests
