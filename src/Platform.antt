-- ===== src/Platform.antt =====
-- kernel/src/platform/x86_64: the drivers of the platform.
pub mod Rtc
pub mod Descriptors
pub mod Acpi
pub mod Apic
pub mod IoApic
pub mod Pic
pub mod Pit
pub mod Cpuid
pub mod Ap
pub mod Msr
