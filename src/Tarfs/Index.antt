-- ===== src/Tarfs/Index.antt =====
-- tarfs/tarfs.go: `Entry`, `FS`, `New`, the lookups by name and `ReadDir`. What archive/tar reads is
-- the list of its headers, each with the offset of `countReader` behind it, and the error that ends
-- the list, none for `io.EOF`. `Header.FileInfo` is archive/tar's: it is a parameter. The other
-- fields of a header, and `ra`, are carried along by the code and are left out.
use targz.Prelude.{
  ℕ, List, [], ◌∷◌, ◌++◌, map, Bool, true, false, ◌&&◌, Option, none, some, ltb, ◌==◌,
  if◌then◌else◌, length, get_elem?,
}
use targz.Tarfs.Paths.{Name, dot, same, normalize, dir_of}

pub record Header : Type 0 where
  pub name : Name
  pub linkname : Name
  pub typeflag : ℕ
  pub size : ℕ

pub record FileInfo : Type 0 where
  pub name : Name
  pub is_dir : Bool

pub record Entry : Type 0 where
  pub header : Header
  pub offset : ℕ
  pub filename : Name
  pub dir : Name
  pub fi : FileInfo

pub record Fs : Type 0 where
  pub files : List Entry
  pub index : List (Name × ℕ)
  pub dirs : List (Name × List Entry)
  pub root : Entry

-- The synthesized entry for ".".
abbrev pub synthetic_root : Entry
synthetic_root = record {
  header = record { name = dot; linkname = []; typeflag = 0; size = 0 };
  offset = 0;
  filename = dot;
  dir = dot;
  fi = record { name = dot; is_dir = true };
}

abbrev pub empty_fs : Fs
empty_fs = record { files = []; index = []; dirs = []; root = synthetic_root }

-- A map is the list of its bindings, the latest first.
unfoldable pub lookup : {A : Type 0} → Name → List (Name × A) → Option A
unfolding same
lookup k [] = none
lookup k ((k', a) ∷ rest) = let r = lookup k rest in if same k' k then some a else r

-- `cmp.Compare(a, b) <= 0` on strings
unfoldable pub name_le : Name → Name → Bool
name_le [] t = true
name_le (c ∷ cs) [] = false
name_le (c ∷ cs) (d ∷ ds) = let rest = name_le cs ds in if c == d then rest else ltb c d

-- `slices.SortFunc` by name. Its order among equals is not documented; here it is that of the file.
unfoldable pub insert : Entry → List Entry → List Entry
unfolding name_le
insert e [] = e ∷ []
insert e (x ∷ xs) =
    let later = x ∷ insert e xs in if name_le e.fi.name x.fi.name then e ∷ x ∷ xs else later

unfoldable pub sort : List Entry → List Entry
unfolding insert
sort [] = []
sort (e ∷ es) = insert e (sort es)

-- `dir`, with the root's own directory made empty, so that "." does not list itself.
unfoldable pub dir_for : Name → Name
unfolding dir_of same
dir_for filename =
    let dir = dir_of filename in if same filename dot && same dir dot then [] else dir

-- The entry is filed under its name, and kept if it is the root.
unfoldable pub register : ℕ → Entry → Fs → Fs
unfolding same
register i e fs = record fs {
  index = (e.filename, i) ∷ fs.index;
  root = if same e.dir [] then e else fs.root;
}

-- The entry is registered with its position, and appended.
unfoldable pub place : Entry → Fs → Fs
unfolding register
place e fs =
    let fs' = register (length fs.files) e fs in record fs' { files = fs.files ++ (e ∷ []) }

-- `fsys.dirs[f.dir] = append(fsys.dirs[f.dir], f)`
unfoldable pub append_to : Entry → List (Name × List Entry) → List (Name × List Entry)
unfolding same
append_to e [] = (e.dir, e ∷ []) ∷ []
append_to e ((d, es) ∷ rest) =
    let later = (d, es) ∷ append_to e rest in
    if same d e.dir then (d, es ++ (e ∷ [])) ∷ rest else later

unfoldable pub group : List Entry → List (Name × List Entry) → List (Name × List Entry)
unfolding append_to
group [] ds = ds
group (e ∷ es) ds = group es (append_to e ds)

-- The listings of all directories, sorted.
unfoldable pub fill_dirs : Fs → Fs
unfolding group sort
fill_dirs fs = record fs { dirs = map (λ p. (p.0, sort p.1)) (group fs.files []) }

-- `Entry`: `files[i]` may not fail, since it would panic.
pub data Found : Type 0 where
  found : Entry → Found
  not_exist panicked : Found

unfoldable pub file_at : Fs → ℕ → Found
file_at fs i = elim (get_elem? fs.files i) [ none ↦ panicked | some e ↦ found e ]

unfoldable pub entry : Fs → Name → Found
unfolding lookup file_at
entry fs name = elim (lookup name fs.index) [ none ↦ not_exist | some i ↦ file_at fs i ]

-- `ReadDir`: an unknown directory is empty.
unfoldable pub read_dir : Fs → Name → List Entry
unfolding lookup
read_dir fs name = elim (lookup name fs.dirs) [ none ↦ [] | some es ↦ es ]

-- `Lstat`
unfoldable pub lstat : Fs → Name → Option FileInfo
unfolding entry same
lstat fs name = elim (entry fs name) [
  | found e ↦ some e.fi
  | not_exist ↦ if same name dot then some fs.root.fi else none
  | panicked ↦ none
]

module _ (file_info : Header → FileInfo) where
  unfoldable pub entry_of : Header × ℕ → Entry
  unfolding normalize dir_for
  entry_of (hdr, offset) = record {
    header = hdr;
    offset = offset;
    filename = normalize hdr.name;
    dir = dir_for (normalize hdr.name);
    fi = file_info hdr;
  }

  -- A round of `New`'s loop.
  unfoldable pub add : Header × ℕ → Fs → Fs
  unfolding entry_of place
  add h fs = place (entry_of h) fs

  unfoldable pub scan : List (Header × ℕ) → Fs → Fs
  unfolding add
  scan [] fs = fs
  scan (h ∷ hs) fs = scan hs (add h fs)

  -- What `New` makes of an archive that it has read to its end.
  unfoldable pub built : List (Header × ℕ) → Fs
  unfolding scan fill_dirs
  built hs = fill_dirs (scan hs empty_fs)

  -- `New`: none if reading the archive fails.
  unfoldable pub new : List (Header × ℕ) → Bool → Option Fs
  unfolding built
  new hs failed = if failed then none else some (built hs)
