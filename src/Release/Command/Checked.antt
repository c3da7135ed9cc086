-- ===== src/Release/Command/Checked.antt =====
-- What `cachy-release package` leaves.
use cachy.Release.Archive.Packaged.{Packaged}
