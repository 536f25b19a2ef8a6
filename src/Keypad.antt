-- ===== src/Keypad.antt =====
-- The keypad stack: HtcLeoPkg/Drivers/KeypadDxe, HtcLeoPkg/Include/Library/KeypadDeviceHelperLib.h
-- and HtcLeoPkg/Library/KeypadDeviceImplLib.
pub mod Key
pub mod Device
pub mod Queue
pub mod KeyStatus
pub mod Console
pub mod TextIn
