-- ===== src/Updater/Idle.antt =====
-- When `run` of src/client/updater/file_updater.cpp ends without an exception, nothing is outdated.
use w3m.Updater.{Files, Updater}
