-- ===== src/Trees/Paths.antt =====
-- Path names as obnamlib/fmt_ga/tree.py and client.py take them apart with `os.path`: absolute and
-- normalised, a list of names with the last one first. `/` is the empty list.
use obnam.Prelude.{List, [], ◌∷◌}
use obnam.Bag.ObjectId.{Text}

abbrev pub Pathname : Type 0
Pathname = List Text

-- `os.path.dirname`; the directory of `/` is `/`
abbrev pub dirname : Pathname → Pathname
dirname [] = []
dirname (name ∷ parent_path) = parent_path

-- `os.path.basename`
abbrev pub basename : Pathname → Text
basename [] = []
basename (name ∷ parent_path) = name

-- `os.path.join`
abbrev pub join : Pathname → Text → Pathname
join parent_path name = name ∷ parent_path

-- '.'
abbrev pub dot : Text
dot = b'.' ∷ []
