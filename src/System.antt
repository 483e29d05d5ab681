-- ===== src/System.antt =====
-- The life of a device of the opencores driver between probe and remove: ioctls (ioctl.c), writes to
-- its attributes (sysfs.c) and interrupts (int.c), in any order.
pub mod Life
mod Tests
