-- ===== src/Tarfs/Paths.antt =====
-- tarfs/tarfs.go, names: `normalize` and `dirs`, and what they and their callers use of `strings`
-- and `path`. A string is the list of its bytes.
use targz.Prelude.{
  ℕ, List, [], ◌∷◌, ◌++◌, ◌≡◌, Bool, true, false, ◌&&◌, Option, none, some, ◌==◌, if◌then◌else◌,
  ap₂, refl, Bool-cases, inl, inr, arith,
}

abbrev pub Name : Type 0
Name = List ℕ

abbrev pub slash : ℕ
slash = 47

abbrev pub dot : Name
dot = 46 ∷ []

abbrev pub dot_dot : Name
dot_dot = 46 ∷ 46 ∷ []

unfoldable pub same : Name → Name → Bool
same [] [] = true
same [] (d ∷ ds) = false
same (c ∷ cs) [] = false
same (c ∷ cs) (d ∷ ds) = (c == d) && same cs ds

-- `strings.CutPrefix`
unfoldable pub cut_prefix : Name → Name → Option Name
cut_prefix [] s = some s
cut_prefix (p ∷ ps) [] = none
cut_prefix (p ∷ ps) (c ∷ cs) = let rest = cut_prefix ps cs in if p == c then rest else none

unfoldable pub trim_prefix : Name → Name → Name
unfolding cut_prefix
trim_prefix s prefix = elim (cut_prefix prefix s) [ none ↦ s | some rest ↦ rest ]

-- `strings.TrimSuffix(s, "/")`
unfoldable pub trim_slash : Name → Name
trim_slash [] = []
trim_slash (c ∷ []) = if c == slash then [] else c ∷ []
trim_slash (c ∷ d ∷ cs) = c ∷ trim_slash (d ∷ cs)

unfoldable pub normalize : Name → Name
unfolding trim_prefix trim_slash
normalize s = trim_prefix (trim_prefix (trim_slash s) (slash ∷ [])) (46 ∷ slash ∷ [])

-- `dirs`: what stands before each slash.
unfoldable pub dirs_after : Name → Name → List Name
dirs_after before [] = []
dirs_after before (c ∷ cs) =
    let rest = dirs_after (before ++ (c ∷ [])) cs in if c == slash then before ∷ rest else rest

unfoldable pub dirs : Name → List Name
unfolding dirs_after
dirs name = dirs_after [] name

-- `path.IsAbs`
unfoldable pub is_abs : Name → Bool
is_abs [] = false
is_abs (c ∷ cs) = c == slash

-- The elements between slashes.
unfoldable pub elements : Name → Name → List Name
elements before [] = before ∷ []
elements before (c ∷ cs) =
    let ended = elements [] cs in
    let longer = elements (before ++ (c ∷ [])) cs in if c == slash then before ∷ ended else longer

-- One element of `path.Clean`, on the elements kept so far, the last one first.
unfoldable pub clean_element : Bool → List Name → Name → List Name
unfolding same
clean_element rooted [] e =
    if same e []
    then []
    else if same e dot
    then []
    else if same e dot_dot
    then (if rooted then [] else e ∷ [])
    else e ∷ []
clean_element rooted (top ∷ kept) e =
    if same e []
    then top ∷ kept
    else if same e dot
    then top ∷ kept
    else if same e dot_dot
    then (if same top dot_dot then e ∷ top ∷ kept else kept)
    else e ∷ top ∷ kept

unfoldable pub clean_elements : Bool → List Name → List Name → List Name
unfolding clean_element
clean_elements rooted kept [] = kept
clean_elements rooted kept (e ∷ es) = clean_elements rooted (clean_element rooted kept e) es

-- The kept elements, the last one first, with slashes between them and `behind` behind them.
unfoldable pub join_kept : List Name → Name → Name
join_kept [] behind = behind
join_kept (e ∷ []) behind = e ++ behind
join_kept (e ∷ d ∷ kept) behind = join_kept (d ∷ kept) (slash ∷ (e ++ behind))

-- `path.Clean`
unfoldable pub clean : Name → Name
unfolding is_abs elements clean_elements join_kept same
clean s =
    let body = join_kept (clean_elements (is_abs s) [] (elements [] s)) [] in
    if is_abs s then slash ∷ body else if same body [] then dot else body

-- Up to the last slash, that one included: the first result of `path.Split`.
unfoldable pub dir_part : Name → Name → Name
dir_part done [] = []
dir_part done (c ∷ cs) =
    let rest = dir_part [] cs in
    let at_slash = done ++ (c ∷ rest) in
    let later = dir_part (done ++ (c ∷ [])) cs in if c == slash then at_slash else later

-- `path.Dir`
unfoldable pub dir_of : Name → Name
unfolding dir_part clean
dir_of s = clean (dir_part [] s)

-- `path.Join`
unfoldable pub join_onto : Name → List Name → Name
unfolding same
join_onto buf [] = buf
join_onto buf (e ∷ es) = if same buf [] then join_onto e es else join_onto (buf ++ (slash ∷ e)) es

unfoldable pub join : List Name → Name
unfolding join_onto clean
join es = let buf = join_onto [] es in if same buf [] then [] else clean buf

pub same_refl : (s : Name) → same s s ≡ true
unfolding same
same_refl [] = refl
same_refl (c ∷ cs) = ground (arith, same_refl cs)

pub same_eq : (s t : Name) → same s t ≡ true → s ≡ t
unfolding same
same_eq [] [] h = refl
same_eq [] (d ∷ ds) h = absurd (cc h)
same_eq (c ∷ cs) [] h = absurd (cc h)
same_eq (c ∷ cs) (d ∷ ds) h = elim (Bool-cases (c == d)) [
  | inl e ↦ ap₂ ◌∷◌ (ground arith) (same_eq cs ds (rw e at h))
  | inr e ↦ absurd (cc (rw e at h))
]
