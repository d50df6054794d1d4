-- ===== src/Auth.antt =====
-- server/internal/auth: the device flow and the API keys (device.go), and the sessions of a browser
-- (browser.go).
pub mod Tables
pub mod Credentials
pub mod Devices
pub mod Machines
pub mod Keys
pub mod Exchange
pub mod Calls
pub mod Browser
