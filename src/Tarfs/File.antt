-- ===== src/Tarfs/File.antt =====
-- tarfs/tarfs.go: `File`, `Open` as it makes one, `countReader`, `Index`, and what `Entry` and `root`
-- tell of themselves.
use targz.Prelude.{ℕ, suc, ◌+◌, List, [], ◌∷◌, Bool, Option, none, some, if◌then◌else◌, length}
use targz.Tarfs.Paths.{Name, dot, same, normalize, dir_of}
use targz.Tarfs.Index.{Header, FileInfo, Entry, Fs, read_dir}
use targz.Tarfs.Open.{
  Opened, opened, missing, too_many, crashed, open_name, max_hops, read_link, file_read_dir,
}
use targz.Tarfs.Section.{ℤ, ReadErr, ReaderAt, Section, new_section, seek, read, read_at}

-- Of `Entry`, as an `fs.DirEntry`.
unfoldable pub entry_name : Entry → Name
entry_name e = e.fi.name

unfoldable pub entry_size : Entry → ℕ
entry_size e = e.header.size

unfoldable pub entry_info : Entry → FileInfo
entry_info e = e.fi

unfoldable pub entry_is_dir : Entry → Bool
entry_is_dir e = e.fi.is_dir

pub record File : Type 0 where
  pub entry : Entry
  pub section : Section
  pub cursor : ℕ

unfoldable pub file_of : Entry → File
unfolding new_section
file_of e = record { entry = e; section = new_section e.offset e.header.size; cursor = 0 }

-- The root, over `bytes.NewReader(nil)`, of which an empty section reads nothing.
unfoldable pub root_file : Entry → File
unfolding new_section
root_file e = record { entry = e; section = new_section 0 0; cursor = 0 }

unfoldable pub handle : Opened → Option File
unfolding file_of
handle (opened e) = some (file_of e)
handle missing = none
handle too_many = none
handle crashed = none

-- `Open`, none for an error.
unfoldable pub open_handle : Fs → Name → Option File
unfolding handle root_file open_name same
open_handle fs name =
    if same name dot then some (root_file fs.root) else handle (open_name fs (suc max_hops) name)

-- `(*File).Stat`
unfoldable pub file_stat : File → FileInfo
file_stat f = f.entry.fi

-- `(*File).Seek`
unfoldable pub file_seek : ℤ → ℕ → File → Option ℕ × File
unfolding seek
file_seek offset whence f =
    let (to, s) = seek offset whence f.section in (to, record f { section = s })

-- `(*File).Close`, which changes nothing.
unfoldable pub file_close : File → File
file_close f = f

-- `(*File).ReadDir` of a file of a file system.
unfoldable pub file_list : Fs → Option ℕ → File → (List Entry × Bool) × File
unfolding file_read_dir read_dir
file_list fs n f =
    let (page, cursor) = file_read_dir n (read_dir fs f.entry.filename) f.cursor in
    (page, record f { cursor = cursor })

-- `Readlink`
unfoldable pub readlink : Fs → Name → Option Name
unfolding read_link
readlink fs name = read_link fs name

-- `countReader`
pub record Counted (R : Type 0) : Type 0 where
  pub r : R
  pub n : ℕ

unfoldable pub count_read :
    {R : Type 0} → (ℕ → R → (List ℕ × ReadErr) × R) → ℕ → Counted R → (List ℕ × ReadErr) × Counted R
count_read read_r k cr =
    let (answer, r') = read_r k cr.r in (answer, record { r = r'; n = cr.n + length answer.0 })

module _ {S : Type 0} (ra : ReaderAt S) where
  -- `(*File).Read`
  unfoldable pub file_read : ℕ → File → S → (List ℕ × ReadErr) × (File × S)
  unfolding read
  file_read n f st =
      let (answer, (s, st')) = read ra n f.section st in (answer, (record f { section = s }, st'))

  -- `(*File).ReadAt`
  unfoldable pub file_read_at : ℕ → ℤ → File → S → (List ℕ × ReadErr) × S
  unfolding read_at
  file_read_at n off f st = read_at ra n off f.section st

module _ (file_info : Header → FileInfo) where
  -- `Index` keeps the directory of "." as it is.
  unfoldable pub index_entry : Header × ℕ → Entry
  unfolding normalize dir_of
  index_entry (hdr, offset) = record {
    header = hdr;
    offset = offset;
    filename = normalize hdr.name;
    dir = dir_of (normalize hdr.name);
    fi = file_info hdr;
  }

  unfoldable pub index_all : List (Header × ℕ) → List Entry
  unfolding index_entry
  index_all [] = []
  index_all (h ∷ hs) = index_entry h ∷ index_all hs

  -- `Index`: none if reading the archive fails.
  unfoldable pub index_of : List (Header × ℕ) → Bool → Option (List Entry)
  unfolding index_all
  index_of hs failed = if failed then none else some (index_all hs)
