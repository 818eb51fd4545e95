-- ===== src/Tests/Run/Delivered.antt =====
-- A run that installs the kernel that its guest built.
use ossein_kernel.Builder.Run.Installed.{Installed}
