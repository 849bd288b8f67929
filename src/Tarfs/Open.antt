-- ===== src/Tarfs/Open.antt =====
-- tarfs/tarfs.go: `Open`, `open`, `Stat`, `ReadLink` and `File`.
use targz.Prelude.{
  ℕ, zero, suc, ◌+◌, ◌-◌, List, [], ◌∷◌, Bool, true, false, ◌||◌, Option, none, some, ltb, ◌==◌,
  if◌then◌else◌, length, take, drop,
}
use targz.Tarfs.Paths.{Name, dot, same, normalize, dirs, trim_prefix, is_abs, join}
use targz.Tarfs.Index.{FileInfo, Entry, Fs, found, not_exist, panicked, entry}

abbrev pub type_link : ℕ
type_link = 49

abbrev pub type_symlink : ℕ
type_symlink = 50

-- What one call of `open` does.
pub data Hop : Type 0 where
  arrived : Entry → Hop
  follow : Name → Hop
  nowhere broken : Hop

-- `Deal with symlinked dirs`: the first directory on the way that is a symlink.
unfoldable pub through_dir : Fs → Name → List Name → Hop
unfolding entry trim_prefix is_abs normalize join
through_dir fs name [] = nowhere
through_dir fs name (dir ∷ ds) =
    let later = through_dir fs name ds in
    let rest = trim_prefix name dir in
    elim (entry fs dir) [
      | found e ↦
          if e.header.typeflag == type_symlink
          then (if is_abs e.header.linkname
              then follow (normalize (join (e.header.linkname ∷ rest ∷ [])))
              else follow (join (e.dir ∷ e.header.linkname ∷ rest ∷ [])))
          else later
      | not_exist ↦ later
      | panicked ↦ broken
    ]

-- The target of a link, and an entry that is none.
unfoldable pub at_entry : Entry → Hop
unfolding is_abs normalize join
at_entry e =
    let link = e.header.linkname in
    if e.header.typeflag == type_symlink || e.header.typeflag == type_link
    then (if is_abs link || e.header.typeflag == type_link
        then follow (normalize link)
        else follow (join (e.dir ∷ link ∷ [])))
    else arrived e

unfoldable pub hop : Fs → Name → Hop
unfolding entry at_entry through_dir dirs
hop fs name = elim (entry fs name) [
  | found e ↦ at_entry e
  | not_exist ↦ through_dir fs name (dirs name)
  | panicked ↦ broken
]

pub data Opened : Type 0 where
  opened : Entry → Opened
  missing too_many crashed : Opened

-- 255
abbrev pub max_hops : ℕ
max_hops = 255

-- `open(name, hops)`, where `left` is `maxHops + 1 - hops`.
unfoldable pub open_name : Fs → ℕ → Name → Opened
unfolding hop
open_name fs zero name = too_many
open_name fs (suc left) name = elim (hop fs name) [
  | arrived e ↦ opened e
  | follow next ↦ open_name fs left next
  | nowhere ↦ missing
  | broken ↦ crashed
]

-- `Open`
unfoldable pub open_file : Fs → Name → Opened
unfolding open_name same
open_file fs name = if same name dot then opened fs.root else open_name fs (suc max_hops) name

-- `Stat`
unfoldable pub stat : Fs → Name → Option FileInfo
unfolding open_file
stat fs name = elim (open_file fs name) [
  | opened e ↦ some e.fi
  | missing ↦ none
  | too_many ↦ none
  | crashed ↦ none
]

-- `ReadLink`: the link's target, or none for an error.
unfoldable pub read_link : Fs → Name → Option Name
unfolding entry
read_link fs name = elim (entry fs name) [
  | found e ↦
      if e.header.typeflag == type_symlink || e.header.typeflag == type_link
      then some e.header.linkname
      else none
  | not_exist ↦ none
  | panicked ↦ none
]

-- `(*File).ReadDir` of a positive `n`, zero, or below zero (none) on a listing from a cursor: what is
-- returned, whether it is `io.EOF`, and the new cursor.
unfoldable pub file_read_dir : Option ℕ → List Entry → ℕ → (List Entry × Bool) × ℕ
file_read_dir (some zero) dir cursor = (([], false), cursor)
file_read_dir (some (suc k)) dir cursor =
    if ltb cursor (length dir)
    then (if ltb (suc k) (length dir - cursor)
        then ((take (suc k) (drop cursor dir), false), cursor + suc k)
        else ((drop cursor dir, false), length dir))
    else (([], true), cursor)
file_read_dir none dir cursor =
    if ltb cursor (length dir)
    then ((drop cursor dir, false), length dir)
    else (([], false), cursor)
