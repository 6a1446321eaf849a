-- ===== src/Tests/Restores.antt =====
-- A restoration from the second place, and prepared stages.
use bdbackup.Base.{refl, true, Option, none, some, List, [], ◌∷◌, String, str_eq, if◌then◌else◌}
use bdbackup.Base.FilePath.{FilePath, path_eq}
use bdbackup.Gfs.Stages.{Stage, days, daily}
use bdbackup.Gfs.Structure.{Directory}
use bdbackup.Recovery.{archive, Place, Site, restore_record, IsVerified, restore_record-IsVerified}

abbrev site : Site
site = record {
  resolve = λ p. p;
  checksum = λ p. if_second p;
  sources = λ p. none;
  works = λ p. true;
}
  where
    if_second : FilePath → Option String
    if_second [] = none
    if_second (p ∷ ps) = if str_eq p "b" then some "aa" else some "zz"

abbrev place : String → Place
place p = record {
  unit = p ∷ "www" ∷ [];
  member = p ∷ "www" ∷ [];
  is_available = true;
  still_available = true;
}

abbrev members : List (FilePath × String)
members = ([], "aa") ∷ []

restore_record-IsVerified_example :
    IsVerified site members archive true (place "a" ∷ place "b" ∷ []) ("b" ∷ "www" ∷ [])
unfolding restore_record path_eq
restore_record-IsVerified_example =
    restore_record-IsVerified site members archive true (place "a" ∷ place "b" ∷ [])
      ("b" ∷ "www" ∷ []) refl

abbrev directory : Directory
directory = record {
  is_dir = true;
  exists = true;
  parent_is_dir = true;
  can_create = true;
  is_writable = true;
  can_write_marker = true;
}

abbrev one_stage : List Stage
one_stage =
    record { paths = ("a" ∷ []) ∷ []; period = daily; keep = record { count = 7; unit = days } }
    ∷ []
