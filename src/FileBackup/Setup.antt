-- ===== src/FileBackup/Setup.antt =====
-- bdbackup/filebackup.py: the template and the names that a `FileBackup` is made with. `expanduser`
-- and the splitting of a text into a path are a parameter.
use bdbackup.Base.{
  Bool, not, ◌&&◌, ◌||◌, Option, none, some, List, [], ◌∷◌, String, ◌<>◌, str_eq, if◌then◌else◌,
}
use bdbackup.Base.FilePath.{FilePath}
use bdbackup.Base.Strip.{is_empty, is_space, strip, head_is}
use bdbackup.FileBackup.{RawPath}
use bdbackup.Templates.Rules.{is_char}

-- `load_template`, on the lines of the file.
unfoldable pub load_template : (String → RawPath) → List String → List RawPath
unfolding strip
load_template parse [] = []
load_template parse (line ∷ lines) =
    let rest = load_template parse lines in
    let text = strip is_space line in
    if is_empty text || head_is (is_char "#") text then rest else parse text ∷ rest

-- `FORMATS`: the extension of a format.
unfoldable pub extension : String → Option String
extension f =
    if str_eq f "tar"
    then some ".tar"
    else if str_eq f "tar.gz"
    then some ".tar.gz"
    else if str_eq f "tar.zst"
    then some ".tar.zst"
    else none

-- `Path(str(path) + text)`
unfoldable pub append_text : FilePath → String → FilePath
append_text [] t = t ∷ []
append_text (p ∷ []) t = (p <> t) ∷ []
append_text (p ∷ q ∷ ps) t = p ∷ append_text (q ∷ ps) t

-- What `__init__` raises.
pub data Refusal : Type 0 where
  unsupported_format needs_python_3_14 is_a_directory : Refusal

pub record Paths : Type 0 where
  pub lock_filename : FilePath
  pub tar_filename : FilePath

pub data Made : Type 0 where
  made : Paths → Made
  refused : Refusal → Made

-- `__init__`, its checks and the names; `stamp` is today's, if the archive is stamped.
unfoldable pub init : FilePath → String → Bool → Bool → Option String → Made
unfolding extension append_text
init backup_dst format python_3_14 is_dir stamp = elim (extension format) [
  | none ↦ refused unsupported_format
  | some ext ↦
      if str_eq format "tar.zst" && not python_3_14
      then refused needs_python_3_14
      else if is_dir
      then refused is_a_directory
      else made (record {
        lock_filename = append_text backup_dst (ext <> ".lock");
        tar_filename =
            append_text backup_dst (elim stamp [ none ↦ ext | some s ↦ ("-" <> s) <> ext ]);
      })
]
