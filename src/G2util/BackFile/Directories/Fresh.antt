-- ===== src/G2util/BackFile/Directories/Fresh.antt =====
-- The names of the backups of one day.
use gof.Base.{ℕ, zero, suc, List, [], ◌∷◌, Text}
use gof.G2util.BackFile.Directories.{backup_name}

-- the names of the first backups of a day in an empty directory, the last first
unfoldable pub backups : Text → ℕ → List Text
unfolding backup_name
backups path zero = []
backups path (suc k) = backup_name path (backups path k) ∷ backups path k
