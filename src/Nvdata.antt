-- ===== src/Nvdata.antt =====
-- nvdata_tool/nvdata_tool.py: the checksum, the scan for the current record, the edit of its
-- flags, and the command.
pub mod Crc
pub mod Result
pub mod Scan
pub mod Edit
pub mod Command
mod Tests
