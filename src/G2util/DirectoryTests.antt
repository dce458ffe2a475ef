-- ===== src/G2util/DirectoryTests.antt =====
-- Runs of the registry of log files and of the deletion of old directories.
use gof.Base.Dict.{put}
use gof.Base.{ℕ, ◌-◌, ◌≡◌, refl, true, false, List, [], ◌∷◌, ◌++◌, arith, any, Text, codes, text_eq}
use gof.Base.Dict.{get}
use gof.Base.Decimal.{decimal}
use gof.Base.Decimal.Digits.{all_digits}
use gof.Base.Replace.{replace_all}
use gof.Fault.{ok}
use gof.G2util.BackFile.{new_io, default_options}
use gof.G2util.BackFile.Registry.{AbFile, constructed, IsRegistry, new_io_at}
use gof.G2util.BackFile.Directories.{
  Entry, file_dir_with_day_suffix, auto_del_dir, new_file_path_name, backup_name,
}
use gof.G2util.BackFile.Directories.Recent.{auto_del_dir_recent}

constructed-IsRegistry : IsRegistry constructed
unfolding get
constructed-IsRegistry = record { made_lt = λ p h e. cc; apart = λ p q h e f. cc }

abbrev one_log : AbFile
one_log = record {
  files = (codes "/l/log.log", 0) ∷ [];
  made = new_io (codes "x") default_options ∷ [];
  registered = [];
}

opened : new_io_at (codes "/l/log.log") [] (ok (codes "x")) constructed ≡ (ok 0, one_log)
unfolding new_io_at get put
opened = refl

abbrev day_str : ℕ → Text
day_str a = codes "2022010" ++ decimal (9 - a)

abbrev entry : Text → Entry
entry s = record { path = codes "/l/" ++ s; name = s }

-- directories of the log `log`, of a log `log1`, and others
abbrev found : List Entry
found =
    record { path = codes "/l"; name = codes "l" }
    ∷ entry (codes "data")
    ∷ entry (codes "log20220109")
    ∷ entry (codes "log20220101")
    ∷ entry (codes "log120220109")
    ∷ []

today_kept : file_dir_with_day_suffix (codes "/l/log.log") (day_str 0) ≡ codes "/l/log20220109"
unfolding file_dir_with_day_suffix replace_all decimal
today_kept = refl

-- the old directory goes, and so does today's of the other log
old_deleted :
    auto_del_dir true (codes "/l/log.log") day_str 3 found
    ≡ codes "/l/log20220101" ∷ codes "/l/log120220109" ∷ []
unfolding auto_del_dir replace_all all_digits text_eq decimal
old_deleted = refl

auto_del_dir_recent_example :
    any
      (λ q. text_eq q (file_dir_with_day_suffix (codes "/l/log.log") (day_str 2)))
      (auto_del_dir true (codes "/l/log.log") day_str 3 found)
    ≡ false
auto_del_dir_recent_example =
    auto_del_dir_recent true (codes "/l/log.log") day_str 3 2 found (omega arith)

third_backup :
    new_file_path_name
      (codes "/l/log.log")
      (day_str 0)
      (codes "000001.log" ∷ codes "000000.log" ∷ [])
    ≡ codes "/l/log20220109/000002.log"
unfolding new_file_path_name replace_all text_eq
third_backup = refl

-- after the removal of the first backup the next takes the name of the last
overwritten : backup_name (codes "/l/log.log") (codes "000001.log" ∷ []) ≡ codes "000001.log"
unfolding backup_name text_eq
overwritten = refl
