-- ===== src/Tarfs/Decode.antt =====
-- tarfs/tarfs.go: `Encode` and `Decode`. JSON writes the exported fields of an entry; encoding/json
-- is a parameter: what it writes of texts in UTF-8 is read back, other bytes it would replace.
use targz.Prelude.{
  ◌+◌, ℕ, suc, List, [], ◌∷◌, ◌++◌, map, ◌≡◌, ◌∙◌, refl, ap, sym, Option, none, some, Bool, true,
  false, ◌&&◌, length, arith, length-append,
}
use mathlib.Core.List.{append-nil, append_assoc}
use targz.Tarfs.Paths.{Name}
use targz.Tarfs.Text.{is_utf8}
use targz.Tarfs.Index.{
  Header, FileInfo, Entry, Fs, empty_fs, dir_for, register, fill_dirs, entry_of, add, place, scan,
  built, new,
}

pub record Exported : Type 0 where
  pub header : Header
  pub offset : ℕ
  pub filename : Name

abbrev pub exported : Entry → Exported
exported e = record { header = e.header; offset = e.offset; filename = e.filename }

-- All texts of what is written are valid UTF-8.
unfoldable pub all_utf8 : List Exported → Bool
unfolding is_utf8
all_utf8 [] = true
all_utf8 (x ∷ xs) =
    is_utf8 x.header.name && is_utf8 x.header.linkname && is_utf8 x.filename && all_utf8 xs

-- `dir` and `fi` of an entry that has been read back.
unfoldable pub restore : (Header → FileInfo) → Exported → Entry
unfolding dir_for
restore file_info x = record {
  header = x.header;
  offset = x.offset;
  filename = x.filename;
  dir = dir_for x.filename;
  fi = file_info x.header;
}

-- `for i, e := range fsys.files`
unfoldable pub register_all : ℕ → List Entry → Fs → Fs
unfolding register
register_all i [] fs = fs
register_all i (e ∷ es) fs = register_all (suc i) es (register i e fs)

module _ {Json : Type 0} where
  -- `Encode`
  unfoldable pub encode : (List Exported → Json) → Fs → Json
  encode marshal fs = marshal (map exported fs.files)

  -- `Decode`
  unfoldable pub decode : (Json → Option (List Exported)) → (Header → FileInfo) → Json → Option Fs
  unfolding restore register_all fill_dirs
  decode unmarshal file_info json = elim (unmarshal json) [
    | none ↦ none
    | some toc ↦
        let files = map (restore file_info) toc in
        some (fill_dirs (register_all 0 files (record empty_fs { files = files })))
  ]

register_all-files :
    (i : ℕ) (es xs : List Entry) (fs : Fs)
    → register_all i es (record fs { files = xs }) ≡ record (register_all i es fs) { files = xs }
unfolding register_all register
register_all-files i [] xs fs = refl
register_all-files i (e ∷ es) xs fs = register_all-files (suc i) es xs (register i e fs)

add_one : (n : ℕ) → n + 1 ≡ suc n
add_one n = omega arith

module _ (file_info : Header → FileInfo) where
  add-register :
      (h : Header × ℕ) (es : List Entry) (fs : Fs)
      → record (register_all (length (add file_info h fs).files) es (add file_info h fs)) {
        files = (add file_info h fs).files ++ es;
      }
        ≡ record (register_all
            (suc (length fs.files))
            es
            (register (length fs.files) (entry_of file_info h) fs)) {
              files = fs.files ++ (entry_of file_info h ∷ es);
            }
  unfolding add place
  add-register h es fs =
      rw
        (
          length-append fs.files (entry_of file_info h ∷ []),
          add_one (length fs.files),
          append_assoc fs.files (entry_of file_info h ∷ []) es,
        )
        (ap {A = Fs} (λ r. record r { files = fs.files ++ (entry_of file_info h ∷ es) })
          (register_all-files (suc (length fs.files)) es (fs.files ++ (entry_of file_info h ∷ []))
            (register (length fs.files) (entry_of file_info h) fs)))

  -- The loop of `New` leaves the tables that the loop of `Decode` makes of its files.
  scan-register_all :
      (hs : List (Header × ℕ)) (fs : Fs)
      → scan file_info hs fs
        ≡ record (register_all (length fs.files) (map (entry_of file_info) hs) fs) {
          files = fs.files ++ map (entry_of file_info) hs;
        }
  unfolding scan register_all
  scan-register_all [] fs = rw (append-nil fs.files) refl
  scan-register_all (h ∷ hs) fs =
      scan-register_all hs (add file_info h fs) ∙ add-register h (map (entry_of file_info) hs) fs

  restore-exported :
      (hs : List (Header × ℕ))
      → map (restore file_info) (map exported (map (entry_of file_info) hs))
        ≡ map (entry_of file_info) hs
  unfolding restore entry_of
  restore-exported [] = refl
  restore-exported (h ∷ hs) = ap (◌∷◌ (entry_of file_info h)) (restore-exported hs)

  pub built-files :
      (hs : List (Header × ℕ)) → (built file_info hs).files ≡ map (entry_of file_info) hs
  unfolding built fill_dirs
  built-files hs = ap (λ fs. fs.files) (scan-register_all hs empty_fs)

  decode-marshal :
      {Json : Type 0} (marshal : List Exported → Json) (unmarshal : Json → Option (List Exported))
      → (toc : List Exported) → unmarshal (marshal toc) ≡ some toc
      → decode unmarshal file_info (marshal toc)
        ≡ some (
            fill_dirs (
              register_all 0
                (map (restore file_info) toc)
                (record empty_fs { files = map (restore file_info) toc })))
  unfolding decode
  decode-marshal marshal unmarshal toc reads_back = rw (decode, reads_back) refl

  -- For every archive whose names and link names, as `New` keeps them, are valid UTF-8, `Decode`
  -- of what `Encode` writes of the file system that `New` builds gives this file system again,
  -- provided encoding/json reads back tables of contents whose texts are valid UTF-8.
  pub decode-encode :
      {Json : Type 0} (marshal : List Exported → Json) (unmarshal : Json → Option (List Exported))
      → ((toc : List Exported) → all_utf8 toc ≡ true → unmarshal (marshal toc) ≡ some toc)
      → (hs : List (Header × ℕ)) → all_utf8 (map exported (built file_info hs).files) ≡ true
      → decode unmarshal file_info (encode marshal (built file_info hs)) ≡ new file_info hs false
  unfolding decode encode new built
  decode-encode marshal unmarshal reads_back hs texts =
      decode-marshal marshal unmarshal (map exported (built file_info hs).files)
        (reads_back (map exported (built file_info hs).files) texts)
      ∙ ap {A = List Entry}
          (λ es. some (fill_dirs (register_all 0 es (record empty_fs { files = es }))))
          (ap (λ es. map (restore file_info) (map exported es)) (built-files hs)
            ∙ restore-exported hs)
      ∙ ap {A = Fs} (λ fs. some (fill_dirs fs))
          (register_all-files 0 (map (entry_of file_info) hs) (map (entry_of file_info) hs) empty_fs
            ∙ sym (scan-register_all hs empty_fs))
