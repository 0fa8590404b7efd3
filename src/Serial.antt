-- ===== src/Serial.antt =====
-- The serial port: kernel/src/driver/rs232.c and kernel/src/interupt/rs232_handler.c.
pub mod Port
pub mod Shell
