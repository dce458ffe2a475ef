-- ===== src/G2util/BackFile/Directories.antt =====
-- g2util/auto_back_file.go: the names of the backups and of the directories of a day, and the deletion
-- of old ones. The file's name is an absolute and clean path, as `MustLogIO` makes it, and holds
-- nothing that a regular expression reads as more than itself.
pub mod Fresh
pub mod Recent
use gof.Base.{
  ℕ, zero, suc, Bool, false, not, none, some, List, [], ◌∷◌, ◌++◌, map, if◌then◌else◌, any, Text,
  text_eq,
}
use gof.Base.Decimal.Digits.{all_digits}
use gof.Base.Path.{ext, dir, join_path, stem, padded, ext_of_name}
use gof.Base.Replace.{strip}

-- a directory that `filepath.Walk` meets: its path and its own name
pub record Entry : Type 0 where
  pub path : Text
  pub name : Text

-- `fileDirWithDaySuffix`
unfoldable pub file_dir_with_day_suffix : Text → Text → Text
unfolding dir stem join_path
file_dir_with_day_suffix path day = join_path (dir path) (stem path ++ day)

-- the days back from today, by their dates; the date of today is `day_str 0`
unfoldable pub latest_n_day_str : (ℕ → Text) → ℕ → ℕ → List Text
latest_n_day_str day_str a zero = []
latest_n_day_str day_str a (suc n) = day_str a ∷ latest_n_day_str day_str (suc a) n

-- the regular expression: the file's name and then digits
unfoldable pub is_day_dir : Text → Text → Bool
unfolding strip all_digits
is_day_dir name s = elim (strip name s) [
  | none ↦ false
  | some [] ↦ false
  | some (c ∷ r) ↦ all_digits (c ∷ r)
]

-- `unDelDirs`
unfoldable pub un_del_dirs : Text → List Text → List Text
unfolding dir stem join_path
un_del_dirs path days = map (λ s. join_path (dir path) (stem path ++ s)) days

-- the function that walks
unfoldable pub is_deleted : Text → List Text → Entry → Bool
unfolding dir stem is_day_dir un_del_dirs
is_deleted path days e =
    if text_eq e.path (dir path)
    then false
    else if is_day_dir (stem path) e.name
    then not (any (λ n1. text_eq n1 e.path) (un_del_dirs path days))
    else false

-- `delList` for the directories met
unfoldable pub del_list : Text → List Text → List Entry → List Text
unfolding is_deleted
del_list path days [] = []
del_list path days (e ∷ es) =
    let rest = del_list path days es in if is_deleted path days e then e.path ∷ rest else rest

-- `autoDelDir`: the directories that are removed, none if the file does not exist
unfoldable pub auto_del_dir : Bool → Text → (ℕ → Text) → ℕ → List Entry → List Text
unfolding del_list latest_n_day_str
auto_del_dir exists path day_str save_days es =
    if exists then del_list path (latest_n_day_str day_str 0 save_days) es else []

-- the count of the files of the same extension in the directory, by their names
unfoldable pub count_file : Text → List Text → ℕ
unfolding ext_of_name text_eq
count_file e [] = 0
count_file e (f ∷ fs) =
    let rest = count_file e fs in if text_eq (ext_of_name f) e then suc rest else rest

-- the name of the next backup in the directory with these files
unfoldable pub backup_name : Text → List Text → Text
unfolding padded ext count_file
backup_name path files = padded (count_file (ext path) files) ++ ext path

-- `newFilePathName`
unfoldable pub new_file_path_name : Text → Text → List Text → Text
unfolding file_dir_with_day_suffix backup_name join_path
new_file_path_name path today files =
    join_path (file_dir_with_day_suffix path today) (backup_name path files)
