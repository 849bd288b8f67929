-- ===== src/Tarfs/Chase.antt =====
-- tarfs/tarfs.go, `open`: it follows links, at most 255 of them, to an entry that is none.
use targz.Prelude.{
  [], ◌∷◌, ◌≢◌, ℕ, zero, suc, ◌<◌, List, ◌≡◌, ◌⊎◌, ◌||◌, ◌==◌, refl, sym, ap, ◌∙◌, Bool, false,
  arith, Bool-cases, inl, inr,
}
use targz.Tarfs.Paths.{Name, is_abs, dirs}
use targz.Tarfs.Index.{Entry, Fs, Found, found, not_exist, panicked, entry}
use targz.Tarfs.Links.{Leads, Stops, Means, hop-Means}
use targz.Tarfs.Open.{
  Hop, arrived, follow, nowhere, broken, hop, through_dir, Opened, opened, missing, too_many,
  crashed, open_name, at_entry, type_link, type_symlink,
}

-- `n` links lead from one name to another.
pub data Chase (fs : Fs) : Name → ℕ → Name → Type 0 where
  here : {a : Name} → Chase fs a 0 a
  via : {a b c : Name} {n : ℕ} → Leads fs a b → Chase fs b n c → Chase fs a (suc n) c

-- The chase from `a` ends within `left` calls with that answer.
pub record Ending (fs : Fs) (left : ℕ) (a : Name) (o : Opened) : Type 0 where
  pub hops : ℕ
  pub target : Name
  pub chase : Chase fs a hops target
  pub ends : Stops fs target o
  pub enough : hops < left

-- Either the chase ends in time, or `left` links have been followed and there is one more call.
abbrev pub Resolved : Fs → ℕ → Name → Opened → Type 0
Resolved fs left a o = Ending fs left a o ⊎ ((o ≡ too_many) × ((c : Name) × Chase fs a left c))

module _ (fs : Fs) where
  at_once : (left : ℕ) (a : Name) (o : Opened) → Stops fs a o → Ending fs (suc left) a o
  at_once left a o e = record {
    hops = 0;
    target = a;
    chase = Chase.here;
    ends = e;
    enough = omega arith;
  }

  one_more :
      {left : ℕ} {a b : Name} {o : Opened}
      → Leads fs a b
      → Resolved fs left b o
      → Resolved fs (suc left) a o
  one_more e (inl r) = inl (record {
    hops = suc r.hops;
    target = r.target;
    chase = Chase.via e r.chase;
    ends = r.ends;
    enough = omega (arith, r.enough);
  })
  one_more e (inr (p, (c, chase))) = inr (p, (c, Chase.via e chase))

  call-Resolved :
      (left : ℕ) (a : Name) (h : Hop)
      → hop fs a ≡ h
      → Means fs a h
      → ((b : Name) → Resolved fs left b (open_name fs left b))
      → Resolved fs (suc left) a (open_name fs (suc left) a)
  unfolding open_name
  call-Resolved left a (arrived x) e m rest = rw (open_name, e) (inl (at_once left a (opened x) m))
  call-Resolved left a (follow b) e m rest = rw (open_name, e) (one_more m (rest b))
  call-Resolved left a nowhere e m rest = rw (open_name, e) (inl (at_once left a missing m))
  call-Resolved left a broken e m rest = rw (open_name, e) (inl (at_once left a crashed m))

  -- `open` with `left` calls left follows a name along links to one that leads nowhere else, in
  -- fewer hops than that, and answers what is there. A hard link leads to its target from the
  -- root, a symlink to its target from the root where that is absolute and else from the directory
  -- that it stands in, and a name that is not in the archive leads through the first symlink among
  -- the directories on its way. Or else `open` fails for too many links, and then `left` such
  -- links follow each other from that name.
  pub open_name-Resolved : (left : ℕ) (a : Name) → Resolved fs left a (open_name fs left a)
  unfolding open_name
  open_name-Resolved zero a = inr (refl, (a, Chase.here))
  open_name-Resolved (suc left) a =
      call-Resolved left a (hop fs a) refl (hop-Means fs a) (open_name-Resolved left)

opened_inj : {x e : Entry} → opened x ≡ opened e → x ≡ e
opened_inj h = cc h

arrived_inj : {x e : Entry} → arrived x ≡ arrived e → x ≡ e
arrived_inj h = cc h

-- What `open` returns is no link.
abbrev pub is_link : Entry → Bool
is_link e = e.header.typeflag == type_symlink || e.header.typeflag == type_link

at_entry-is_link : (x e : Entry) → at_entry x ≡ arrived e → is_link e ≡ false
unfolding at_entry
at_entry-is_link x e h = elim (Bool-cases (is_link x)) [
  | inl q ↦ elim (Bool-cases (is_abs x.header.linkname || x.header.typeflag == type_link)) [
    | inl r ↦ absurd (cc (rw (at_entry, q, r) at h))
    | inr r ↦ absurd (cc (rw (at_entry, q, r) at h))
  ]
  | inr q ↦ ap is_link (sym (arrived_inj (rw (at_entry, q) at h))) ∙ q
]

module _ (fs : Fs) where
  -- One directory of the way.
  through_dir_step :
      (name d : Name) (ds : List Name) (e : Entry) (f : Found)
      → entry fs d ≡ f
      → through_dir fs name ds ≢ arrived e
      → through_dir fs name (d ∷ ds) ≢ arrived e
  unfolding through_dir
  through_dir_step name d ds e (found x) p rest h =
      elim (Bool-cases (x.header.typeflag == type_symlink)) [
        | inl q ↦ elim (Bool-cases (is_abs x.header.linkname)) [
          | inl r ↦ cc (rw (through_dir, p, q, r) at h)
          | inr r ↦ cc (rw (through_dir, p, q, r) at h)
        ]
        | inr q ↦ rest (rw (through_dir, p, q) at h)
      ]
  through_dir_step name d ds e not_exist p rest h = rest (rw (through_dir, p) at h)
  through_dir_step name d ds e panicked p rest h = cc (rw (through_dir, p) at h)

  through_dir≢arrived :
      (name : Name) (ds : List Name) (e : Entry) → through_dir fs name ds ≢ arrived e
  unfolding through_dir
  through_dir≢arrived name [] e h = cc h
  through_dir≢arrived name (d ∷ ds) e h =
      through_dir_step name d ds e (entry fs d) refl (through_dir≢arrived name ds e) h

  hop-is_link : (a : Name) (e : Entry) → hop fs a ≡ arrived e → is_link e ≡ false
  unfolding hop
  hop-is_link a e h = from (entry fs a) refl
    where
      from : (f : Found) → entry fs a ≡ f → is_link e ≡ false
      from (found x) p = at_entry-is_link x e (rw (hop, p) at h)
      from not_exist p = absurd (through_dir≢arrived a (dirs a) e (rw (hop, p) at h))
      from panicked p = absurd (cc (rw (hop, p) at h))

  -- One call of `open`.
  call-is_link :
      (left : ℕ) (a : Name) (e : Entry) (o : Hop)
      → hop fs a ≡ o
      → ((b : Name) → open_name fs left b ≡ opened e → is_link e ≡ false)
      → open_name fs (suc left) a ≡ opened e
      → is_link e ≡ false
  unfolding open_name
  call-is_link left a e (arrived x) p rest h =
      ap is_link (sym (opened_inj (rw (open_name, p) at h))) ∙ hop-is_link a x p
  call-is_link left a e (follow b) p rest h = rest b (rw (open_name, p) at h)
  call-is_link left a e nowhere p rest h = absurd (cc (rw (open_name, p) at h))
  call-is_link left a e broken p rest h = absurd (cc (rw (open_name, p) at h))

  -- An entry that `open` returns is neither a symlink nor a hard link.
  pub open_name-is_link :
      (left : ℕ) (a : Name) (e : Entry) → open_name fs left a ≡ opened e → is_link e ≡ false
  unfolding open_name
  open_name-is_link zero a e h = absurd (cc h)
  open_name-is_link (suc left) a e h =
      call-is_link left a e (hop fs a) refl (λ b. open_name-is_link left b e) h
