-- ===== src/Tests.antt =====
-- The theorems at concrete inputs.
mod Samples
mod ScanTests
mod ScriptTests
mod SearchTests
mod KeyTests
mod ConfigTests
mod ClientTests
mod DataTests
mod StreamTests
mod CommandTests
mod WireTests
mod ReplyTests
