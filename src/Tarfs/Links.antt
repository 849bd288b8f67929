-- ===== src/Tarfs/Links.antt =====
-- tarfs/tarfs.go, `open`: where a name is followed to, and where it is not, told apart from the code.
use targz.Prelude.{
  [], ◌∷◌, List, ◌≡◌, ◌⊎◌, ◌||◌, ◌==◌, refl, true, false, Bool-cases, inl, inr, All, arith, ℕ,
}
use targz.Tarfs.Paths.{Name, is_abs, dirs, trim_prefix, normalize, join}
use targz.Tarfs.Index.{Entry, Fs, Found, found, not_exist, panicked, entry}
use targz.Tarfs.Open.{
  Hop, arrived, follow, nowhere, broken, hop, through_dir, Opened, opened, missing, crashed,
  at_entry, type_link, type_symlink,
}

module _ (fs : Fs) where
  -- A directory on the way that is no symlink, or not in the archive.
  abbrev pub IsPassed : Name → Type 0
  IsPassed d =
      (entry fs d ≡ not_exist)
      ⊎ ((e : Entry) × (entry fs d ≡ found e) × ((e.header.typeflag == type_symlink) ≡ false))

  -- One of some directories, with all in front of it passed.
  pub data Meets : List Name → Name → Type 0 where
    first : {d : Name} {ds : List Name} → Meets (d ∷ ds) d
    past : {d to : Name} {ds : List Name} → IsPassed d → Meets ds to → Meets (d ∷ ds) to

  -- A name leads to another: a hard link from the root of the archive; a symlink from the root
  -- where it is absolute, and else from the directory that it stands in; and a name that is not in
  -- the archive through the first symlink among the directories on its way, with what is behind it.
  pub data Leads (a : Name) : Name → Type 0 where
    hard :
        {e : Entry}
        → entry fs a ≡ found e
        → e.header.typeflag ≡ type_link
        → Leads a (normalize e.header.linkname)
    absolute :
        {e : Entry}
        → entry fs a ≡ found e
        → e.header.typeflag ≡ type_symlink
        → is_abs e.header.linkname ≡ true
        → Leads a (normalize e.header.linkname)
    relative :
        {e : Entry}
        → entry fs a ≡ found e
        → e.header.typeflag ≡ type_symlink
        → is_abs e.header.linkname ≡ false
        → Leads a (join (e.dir ∷ e.header.linkname ∷ []))
    through_absolute :
        {d : Name} {e : Entry}
        → entry fs a ≡ not_exist
        → Meets (dirs a) d
        → entry fs d ≡ found e
        → e.header.typeflag ≡ type_symlink
        → is_abs e.header.linkname ≡ true
        → Leads a (normalize (join (e.header.linkname ∷ trim_prefix a d ∷ [])))
    through_relative :
        {d : Name} {e : Entry}
        → entry fs a ≡ not_exist
        → Meets (dirs a) d
        → entry fs d ≡ found e
        → e.header.typeflag ≡ type_symlink
        → is_abs e.header.linkname ≡ false
        → Leads a (join (e.dir ∷ e.header.linkname ∷ trim_prefix a d ∷ []))

  -- A name that leads nowhere else: an entry that is no link, a name that is not in the archive with
  -- no symlink on the way, or one where the index is out of range.
  pub data Stops (a : Name) : Opened → Type 0 where
    at_file :
        {e : Entry}
        → entry fs a ≡ found e
        → (e.header.typeflag == type_symlink || e.header.typeflag == type_link) ≡ false
        → Stops a (opened e)
    not_there : entry fs a ≡ not_exist → All IsPassed (dirs a) → Stops a missing
    out_of_range : entry fs a ≡ panicked → Stops a crashed
    on_the_way :
        {d : Name}
        → entry fs a ≡ not_exist
        → Meets (dirs a) d
        → entry fs d ≡ panicked
        → Stops a crashed

  -- What a hop stands for.
  abbrev pub Means : Name → Hop → Type 0
  Means a (arrived e) = Stops a (opened e)
  Means a (follow b) = Leads a b
  Means a nowhere = Stops a missing
  Means a broken = Stops a crashed

  same_flag : (a b : ℕ) → (a == b) ≡ true → a ≡ b
  same_flag a b h = ground (arith, h)

  either_flag :
      (a : ℕ)
      → (a == type_symlink || a == type_link) ≡ true
      → (a == type_link) ≡ false
      → a ≡ type_symlink
  either_flag a h q = ground (arith, h, q)

  at_entry-Means : (a : Name) (e : Entry) → entry fs a ≡ found e → Means a (at_entry e)
  unfolding at_entry
  at_entry-Means a e f =
      elim (Bool-cases (e.header.typeflag == type_symlink || e.header.typeflag == type_link)) [
        | inr p ↦ rw (at_entry, p) (Stops.at_file f p)
        | inl p ↦ elim (Bool-cases (e.header.typeflag == type_link)) [
          | inl q ↦ elim (Bool-cases (is_abs e.header.linkname)) [
            | inl r ↦ rw (at_entry, p, r) (hard f (same_flag e.header.typeflag type_link q))
            | inr r ↦ rw (at_entry, p, r, q) (hard f (same_flag e.header.typeflag type_link q))
          ]
          | inr q ↦ elim (Bool-cases (is_abs e.header.linkname)) [
            | inl r ↦ rw (at_entry, p, r) (absolute f (either_flag e.header.typeflag p q) r)
            | inr r ↦ rw (at_entry, p, r, q) (relative f (either_flag e.header.typeflag p q) r)
          ]
        ]
      ]

  -- The directory that is met next, behind those that have been passed.
  at_dir-Means :
      (a d : Name) (ds : List Name) (f : Found)
      → entry fs d ≡ f
      → entry fs a ≡ not_exist
      → Meets (dirs a) d
      → (IsPassed d → Means a (through_dir fs a ds))
      → Means a (through_dir fs a (d ∷ ds))
  unfolding through_dir
  at_dir-Means a d ds not_exist f none met on = rw (through_dir, f) (on (inl f))
  at_dir-Means a d ds panicked f none met on = rw (through_dir, f) (on_the_way none met f)
  at_dir-Means a d ds (found e) f none met on =
      elim (Bool-cases (e.header.typeflag == type_symlink)) [
        | inr p ↦ rw (through_dir, f, p) (on (inr (e, f, p)))
        | inl p ↦
            let is_symlink = same_flag e.header.typeflag type_symlink p in
            elim (Bool-cases (is_abs e.header.linkname)) [
              | inl r ↦ rw (through_dir, f, p, r) (through_absolute none met f is_symlink r)
              | inr r ↦ rw (through_dir, f, p, r) (through_relative none met f is_symlink r)
            ]
      ]

  through_dir-Means :
      (a : Name) (ds : List Name)
      → entry fs a ≡ not_exist
      → ((d : Name) → Meets ds d → Meets (dirs a) d)
      → (All IsPassed ds → All IsPassed (dirs a))
      → Means a (through_dir fs a ds)
  unfolding through_dir
  through_dir-Means a [] none way whole = not_there none (whole tt)
  through_dir-Means a (d ∷ ds) none way whole =
      at_dir-Means a d ds (entry fs d) refl none (way d first)
        (λ p. through_dir-Means a ds none (λ to m. way to (past p m)) (λ passed. whole (p, passed)))

  pub hop-Means : (a : Name) → Means a (hop fs a)
  unfolding hop
  hop-Means a = go (entry fs a) refl
    where
      go : (f : Found) → entry fs a ≡ f → Means a (hop fs a)
      go (found e) f = rw (hop, f) (at_entry-Means a e f)
      go not_exist f = rw (hop, f) (through_dir-Means a (dirs a) f (λ to m. m) (λ passed. passed))
      go panicked f = rw (hop, f) (out_of_range f)
