-- ===== src/G2util/BackFile/Access.antt =====
-- g2util/auto_back_file.go: the methods of a log that read its state or flush it, and the deletion of old
-- directories under its lock.
use gof.Base.{ℕ, Bool, true, false, List, length, Text}
use gof.G2util.BackFile.{InnerIo, Disk, Result, flush}
use gof.G2util.BackFile.Directories.{Entry, auto_del_dir}

-- what `os.Stat` says of a name: it is there, it is not, or another error
pub data Stat : Type 0 where
  found : Stat
  absent : Stat
  failed : Stat

-- `fileExists`: only an error that says so means that the file is absent
unfoldable pub file_exists : Stat → Bool
file_exists found = true
file_exists absent = false
file_exists failed = true

-- `Closed`
unfoldable pub is_closed : InnerIo → Bool
is_closed i = i.closed

-- `Flush`
unfoldable pub flush_io : Disk → InnerIo → Result
unfolding flush
flush_io d i = flush d i

-- `getCurrentFileSize`
unfoldable pub current_file_size : InnerIo → ℕ
current_file_size i = length i.file

-- `lockDelDir`: the directories that are removed
unfoldable pub lock_del_dir : Stat → Text → (ℕ → Text) → ℕ → List Entry → List Text
unfolding file_exists auto_del_dir
lock_del_dir st path day_str save_days es = auto_del_dir (file_exists st) path day_str save_days es

-- `todayStr`, by the text of a day that lies a number of days back
unfoldable pub today_str : (ℕ → Text) → Text
today_str day_str = day_str 0
