-- ===== src/Tarfs/FileTests.antt =====
-- A file of three bytes in an archive of eight, over a list, and the theorems on it.
use targz.Prelude.{
  ℕ, ◌+◌, ◌-◌, ◌⊎◌, min, List, [], ◌∷◌, ◌≡◌, ◌∙◌, ap, refl, some, none, true, false, take, drop,
  length, ltb, if◌then◌else◌, Bool-cases, inl, inr, arith, take-length-take, length-take,
  length-drop, ltb→le, sym,
}
use targz.Tarfs.Index.{Entry}
use targz.Tarfs.Section.{ReaderAt, no_error, eof, pos, negsuc}
use targz.Tarfs.File.{file_of, file_read, file_seek, file_read_at}
use targz.Tarfs.Contents.{
  IsAnswer, IsReaderAt, content, at_position, file_read_at-IsAnswer, file_read-IsAnswer,
}
use targz.Tarfs.Seeks.{file_seek-file_read}

abbrev bytes : List ℕ
bytes = 10 ∷ 11 ∷ 12 ∷ 13 ∷ 14 ∷ 15 ∷ 16 ∷ 17 ∷ []

abbrev member : Entry
member = record {
  header = record { name = 97 ∷ []; linkname = []; typeflag = 48; size = 3 };
  offset = 2;
  filename = 97 ∷ [];
  dir = 46 ∷ [];
  fi = record { name = 97 ∷ []; is_dir = false };
}

abbrev listed : ReaderAt Unit
listed n off st = (
  (take n (drop off bytes), if ltb (length (take n (drop off bytes))) n then eof else no_error),
  st,
)

whole_run : file_read_at listed 5 (pos 0) (file_of member) tt ≡ ((12 ∷ 13 ∷ 14 ∷ [], eof), tt)
unfolding file_read_at file_of
whole_run = refl

inside_run : file_read_at listed 2 (pos 1) (file_of member) tt ≡ ((13 ∷ 14 ∷ [], no_error), tt)
unfolding file_read_at file_of
inside_run = refl

behind_run : file_read_at listed 2 (pos 3) (file_of member) tt ≡ (([], eof), tt)
unfolding file_read_at file_of
behind_run = refl

negative_run : file_read_at listed 2 (negsuc 0) (file_of member) tt ≡ (([], eof), tt)
unfolding file_read_at
negative_run = refl

read_run :
    file_read listed 2 (at_position 2 0 member) tt
    ≡ ((14 ∷ [], no_error), (at_position 3 0 member, tt))
unfolding file_read file_of
read_run = refl

seek_run : file_seek (negsuc 0) 2 (file_of member) ≡ (some 2, at_position 2 0 member)
unfolding file_seek file_of
seek_run = refl

seek_back_run : file_seek (negsuc 1) 1 (at_position 1 0 member) ≡ (none, at_position 1 0 member)
unfolding file_seek file_of
seek_back_run = refl

listed-IsReaderAt : IsReaderAt listed bytes (λ _. Unit)
listed-IsReaderAt = record {
  answers = λ n off st sane. ended n off (Bool-cases _);
  stays = λ n off st sane. tt;
}
  where
    counted : (n off : ℕ) → length (take n (drop off bytes)) ≡ min n (8 - off)
    counted n off = length-take n (drop off bytes) ∙ ap (min n) (length-drop off bytes)

    ended :
        (n off : ℕ)
        → (ltb (length (take n (drop off bytes))) n ≡ true)
          ⊎ (ltb (length (take n (drop off bytes))) n ≡ false)
        → IsAnswer bytes n off (listed n off tt).0
    ended n off (inl p) =
        rw p
          (sym (take-length-take n (drop off bytes)), omega (arith, counted n off), counted n off)
    ended n off (inr p) = rw p (
      sym (take-length-take n (drop off bytes)),
      omega (arith, counted n off),
      omega (arith, counted n off, ltb→le _ n p),
    )

file_read_at-IsAnswer_example :
    IsAnswer
      (content bytes member)
      2
      1
      (file_read_at listed 2 (pos 1) (at_position 0 0 member) tt).0
    × Unit {0}
file_read_at-IsAnswer_example =
    file_read_at-IsAnswer listed bytes (λ _. Unit) listed-IsReaderAt 2 1 0 0 member tt (omega arith)
      tt

file_read-IsAnswer_example :
    IsAnswer (content bytes member) 2 1 (file_read listed 2 (at_position 1 0 member) tt).0
    × ((file_read listed 2 (at_position 1 0 member) tt).1.0
        ≡ at_position (1 + length (file_read listed 2 (at_position 1 0 member) tt).0.0) 0 member)
    × Unit {0}
file_read-IsAnswer_example =
    file_read-IsAnswer listed bytes (λ _. Unit) listed-IsReaderAt 2 1 0 member tt (omega arith) tt

file_seek-file_read_example :
    ((file_seek (negsuc 0) 2 (at_position 1 0 member)).0 ≡ some 2)
    × IsAnswer
        (content bytes member)
        1
        2
        (file_read listed 2 (file_seek (negsuc 0) 2 (at_position 1 0 member)).1 tt).0
file_seek-file_read_example =
    file_seek-file_read listed bytes (λ _. Unit) listed-IsReaderAt (negsuc 0) 2 2 2 1 0 member tt
      (omega arith) (omega arith) (omega arith) refl tt
