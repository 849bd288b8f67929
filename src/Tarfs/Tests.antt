-- ===== src/Tarfs/Tests.antt =====
-- An archive of six entries, and the theorems on it.
use targz.Prelude.{ℕ, List, [], ◌∷◌, map, ◌≡◌, refl, if◌then◌else◌, Option, none, some, false, true}
use mathlib.Core.List.{Perm, Pairwise}
use targz.Tarfs.Paths.{Name, dir_of, clean, dirs}
use targz.Tarfs.Index.{Header, FileInfo, Entry, entry, entry_of, built, new, read_dir}
use targz.Tarfs.Open.{opened, open_file, open_name, too_many, file_read_dir}
use targz.Tarfs.Decode.{Exported, exported, all_utf8, encode, decode, decode-encode}
use targz.Tarfs.Lookup.{last_named, entry-last_named}
use targz.Tarfs.Listing.{in_dir, Before, read_dir-in_dir}
use targz.Tarfs.Chase.{is_link, open_name-is_link, Resolved, open_name-Resolved}
use targz.Tarfs.Pages.{IsPage, file_read_dir-IsPage}

abbrev header : Name → Name → ℕ → Header
header name link flag = record { name = name; linkname = link; typeflag = flag; size = 3 }

-- The name as it stands, for archive/tar's.
abbrev plain_info : Header → FileInfo
plain_info h = record { name = h.name; is_dir = false }

-- "./", "./b/", "b/f", "l -> b", "m -> m", "b/f"
abbrev archive : List (Header × ℕ)
archive =
    (header (46 ∷ 47 ∷ []) [] 53, 512)
    ∷ (header (46 ∷ 47 ∷ 98 ∷ 47 ∷ []) [] 53, 1024)
    ∷ (header (98 ∷ 47 ∷ 102 ∷ []) [] 48, 1536)
    ∷ (header (108 ∷ []) (98 ∷ []) 50, 2560)
    ∷ (header (109 ∷ []) (109 ∷ []) 50, 3072)
    ∷ (header (98 ∷ 47 ∷ 102 ∷ []) [] 48, 3584)
    ∷ []

abbrev file : Entry
file = record {
  header = header (98 ∷ 47 ∷ 102 ∷ []) [] 48;
  offset = 3584;
  filename = 98 ∷ 47 ∷ 102 ∷ [];
  dir = 98 ∷ [];
  fi = record { name = 98 ∷ 47 ∷ 102 ∷ []; is_dir = false };
}

clean_run :
    clean (47 ∷ 97 ∷ 47 ∷ 46 ∷ 46 ∷ 47 ∷ 46 ∷ 46 ∷ 47 ∷ 98 ∷ 47 ∷ 47 ∷ 99 ∷ 47 ∷ 46 ∷ [])
    ≡ 47 ∷ 98 ∷ 47 ∷ 99 ∷ []
unfolding clean
clean_run = refl

dir_run : (dir_of (97 ∷ 47 ∷ 98 ∷ 47 ∷ 99 ∷ []) ≡ 97 ∷ 47 ∷ 98 ∷ []) × (dir_of (97 ∷ []) ≡ 46 ∷ [])
unfolding dir_of
dir_run = (refl, refl)

dirs_run : dirs (97 ∷ 47 ∷ 98 ∷ 47 ∷ 99 ∷ []) ≡ (97 ∷ []) ∷ (97 ∷ 47 ∷ 98 ∷ []) ∷ []
unfolding dirs
dirs_run = refl

-- Through the symlink "l" to the directory "b".
open_run : open_file (built plain_info archive) (108 ∷ 47 ∷ 102 ∷ []) ≡ opened file
unfolding open_file built
open_run = refl

loop_run : open_name (built plain_info archive) 9 (109 ∷ []) ≡ too_many
unfolding open_name built
loop_run = refl

-- Its own encoding, which is read back for texts in UTF-8 only.
abbrev strict : List Exported → Option (List Exported)
strict toc = if all_utf8 toc then some toc else none

archive_texts : all_utf8 (map exported (built plain_info archive).files) ≡ true
unfolding built all_utf8
archive_texts = refl

decode-encode_example :
    decode strict plain_info (encode (λ toc. toc) (built plain_info archive))
    ≡ new plain_info archive false
decode-encode_example =
    decode-encode plain_info (λ toc. toc) strict (λ toc texts. rw texts refl) archive archive_texts

entry-last_named_example :
    entry (built plain_info archive) (98 ∷ 47 ∷ 102 ∷ [])
    ≡ last_named (98 ∷ 47 ∷ 102 ∷ []) (map (entry_of plain_info) archive)
entry-last_named_example = entry-last_named plain_info archive (98 ∷ 47 ∷ 102 ∷ [])

read_dir-in_dir_example :
    Perm
      (read_dir (built plain_info archive) (98 ∷ []))
      (in_dir (98 ∷ []) (map (entry_of plain_info) archive))
    × Pairwise Before (read_dir (built plain_info archive) (98 ∷ []))
read_dir-in_dir_example = read_dir-in_dir plain_info archive (98 ∷ [])

open_name-Resolved_example :
    Resolved
      (built plain_info archive)
      3
      (109 ∷ [])
      (open_name (built plain_info archive) 3 (109 ∷ []))
open_name-Resolved_example = open_name-Resolved (built plain_info archive) 3 (109 ∷ [])

file_read_dir-IsPage_example :
    IsPage (some 2) (file ∷ file ∷ file ∷ []) 1 (file_read_dir (some 2) (file ∷ file ∷ file ∷ []) 1)
file_read_dir-IsPage_example = file_read_dir-IsPage (some 2) (file ∷ file ∷ file ∷ []) 1

-- The file behind the symlink.
open_name_run : open_name (built plain_info archive) 2 (108 ∷ 47 ∷ 102 ∷ []) ≡ opened file
unfolding open_name built
open_name_run = refl

open_name-is_link_example : is_link file ≡ false
open_name-is_link_example =
    open_name-is_link (built plain_info archive) 2 (108 ∷ 47 ∷ 102 ∷ []) file open_name_run
