-- ===== src/Watch/Discovery.antt =====
-- discovery.rs, `scan_kind_dir`. What `exists` and `read_dir` answer is a parameter; an entry that
-- cannot be read, and a type that cannot be told, are an error's message.
use greentic_designer_extens.Base.{
  Bool, true, false, List, [], ◌∷◌, ◌++◌, Text, codes, text_eq, ◌&&◌, if◌then◌else◌,
}
use greentic_designer_extens.Base.Outcome.{Outcome, ok, err, ◌>>=◌}
use greentic_designer_extens.Base.Sorting.{text_leb, sort}
use greentic_designer_extens.Runtime.Defs.{FilePath}

pub record DirEntry : Type 0 where
  pub name : Text
  pub is_dir : Outcome Text Bool

pub record Directories : Type 0 where
  pub exists : FilePath → Bool
  pub read_dir : FilePath → Outcome Text (List (Outcome Text DirEntry))

abbrev pub described : Directories → FilePath → DirEntry → Bool
described fs kind_dir entry = fs.exists (codes "describe.json" ∷ entry.name ∷ kind_dir)

-- One round of the loop, and the rest of it.
unfoldable pub push_entry :
    Directories → FilePath → DirEntry → Outcome Text (List FilePath) → Outcome Text (List FilePath)
push_entry fs kind_dir entry rest = elim (entry.is_dir) [
  | err e ↦ err e
  | ok is ↦
      if is && described fs kind_dir entry
      then (rest >>= λ out. ok ((entry.name ∷ kind_dir) ∷ out))
      else rest
]

unfoldable pub scan_entries :
    Directories → FilePath → List (Outcome Text DirEntry) → Outcome Text (List FilePath)
unfolding push_entry
scan_entries fs kind_dir [] = ok []
scan_entries fs kind_dir (err e ∷ entries) = err e
scan_entries fs kind_dir (ok entry ∷ entries) =
    push_entry fs kind_dir entry (scan_entries fs kind_dir entries)

-- The order of `PathBuf`, by components from the root on.
abbrev pub components : FilePath → List Text
components [] = []
components (name ∷ p) = components p ++ name ∷ []

abbrev pub names_leb : List Text → List Text → Bool
names_leb [] q = true
names_leb (a ∷ p) [] = false
names_leb (a ∷ p) (b ∷ q) = if text_eq a b then names_leb p q else text_leb a b

abbrev pub path_leb : FilePath → FilePath → Bool
path_leb p q = names_leb (components p) (components q)

unfoldable pub scan_kind_dir : Directories → FilePath → Outcome Text (List FilePath)
unfolding scan_entries sort
scan_kind_dir fs kind_dir =
    if fs.exists kind_dir
    then (fs.read_dir kind_dir >>= λ entries.
        scan_entries fs kind_dir entries >>= λ out. ok (sort path_leb out))
    else ok []
