-- ===== src/Firmware.antt =====
-- The firmwares of the examples under firmware/: virtual ECUs on a CAN bus. Each file parses its DBC
-- or its node description once; here the parsed description is a parameter.
pub mod Sending
pub mod Controller
pub mod Robot
pub mod CanNode
