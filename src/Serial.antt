-- ===== src/Serial.antt =====
-- The two serial port libraries: text on the frame buffer (HtcLeoPkg/Library/
-- FrameBufferSerialPortLib) and a log in memory (HtcLeoPkg/Library/InMemorySerialPortLib).
pub mod Glyph
pub mod FbCon
pub mod Memory
