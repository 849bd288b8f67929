-- ===== src/Flate/Dict/Copy.antt =====
-- `writeCopy` and `tryWriteCopy` against the copy that RFC 1951 describes, one byte at a time.
use targz.Prelude.{
  ℕ, zero, suc, ◌+◌, ◌-◌, ◌≤◌, ◌<◌, ◌≡◌, ◌∙◌, refl, sym, List, length, get_or, get_or_at,
  get_or_ext, get_or-set_self, get_or-set_ne, length-set, set, ltb, if◌then◌else◌, arith, lt→ltb,
  le→ltb,
}
use native.Mathlib.Decide.{dec_lt}
use targz.Flate.Dict.{DictDecoder, write_byte}

-- The byte `dist` places before the one that is written next, round the end of the window.
unfoldable pub byte_back : DictDecoder → ℕ → ℕ
byte_back dd dist =
    if ltb dd.wr_pos dist
    then get_or dd.hist (length dd.hist + dd.wr_pos - dist) 0
    else get_or dd.hist (dd.wr_pos - dist) 0

-- `n` single bytes, each a copy of the one `dist` places back.
unfoldable pub copy_bytes : ℕ → ℕ → DictDecoder → DictDecoder
copy_bytes zero dist dd = dd
copy_bytes (suc n) dist dd = copy_bytes n dist (write_byte dd (byte_back dd dist))

-- `h'` is `h` with a copy at distance `p` in positions `d` to `e`.
pub record IsCopy (h : List ℕ) (d e p : ℕ) (h' : List ℕ) : Type 0 where
  pub size : length h' ≡ length h
  pub before : (j : ℕ) → j < d → get_or h' j 0 ≡ get_or h j 0
  pub after : (j : ℕ) → e ≤ j → get_or h' j 0 ≡ get_or h j 0
  pub near : (j : ℕ) → d ≤ j → j < e → p ≤ j → get_or h' j 0 ≡ get_or h' (j - p) 0
  pub far : (j : ℕ) → d ≤ j → j < e → j < p → get_or h' j 0 ≡ get_or h (length h + j - p) 0

-- These facts determine the array.
module _ (h : List ℕ) (d e p : ℕ) {a b : List ℕ} (pos : 0 < p) (u : IsCopy h d e p a)
    (v : IsCopy h d e p b) where
  same_at : (k j : ℕ) → j < k → get_or a j 0 ≡ get_or b j 0
  same_at zero j lt = absurd (omega arith)
  same_at (suc k) j lt = elim (dec_lt j d) [
    | yes q ↦ u.before j q ∙ sym (v.before j q)
    | no q ↦ elim (dec_lt j e) [
      | no r ↦ u.after j (omega arith) ∙ sym (v.after j (omega arith))
      | yes r ↦ elim (dec_lt j p) [
        | yes s ↦ u.far j (omega arith) r s ∙ sym (v.far j (omega arith) r s)
        | no s ↦
            u.near j (omega arith) r (omega arith)
            ∙ same_at k (j - p) (omega arith)
            ∙ sym (v.near j (omega arith) r (omega arith))
      ]
    ]
  ]

  pub IsCopy-unique : a ≡ b
  IsCopy-unique = get_or_ext 0 a b (u.size ∙ sym v.size) (λ i. same_at (suc i) i (omega arith))

-- One byte, then a copy of the rest.
IsCopy-set :
    (h h' : List ℕ) (d e p c : ℕ)
    → 0 < p
    → p ≤ length h
    → d < e
    → e ≤ length h
    → (p ≤ d → c ≡ get_or h (d - p) 0)
    → (d < p → c ≡ get_or h (length h + d - p) 0)
    → IsCopy (set h d c) (d + 1) e p h'
    → IsCopy h d e p h'
IsCopy-set h h' d e p c pos small more fits near far r = record {
  size = r.size ∙ length-set h d c;
  before = λ j a. r.before j (omega arith) ∙ get_or-set_ne h d j c 0 (omega arith);
  after = λ j a. r.after j a ∙ get_or-set_ne h d j c 0 (omega arith);
  near = λ j a b q. elim (dec_lt d j) [
    | yes s ↦ r.near j (omega arith) b q
    | no s ↦
        let e₁ : j ≡ d = omega arith in
        get_or_at h' j d 0 e₁
        ∙ r.before d (omega arith)
        ∙ get_or-set_self h d c 0 (omega arith)
        ∙ near (omega arith)
        ∙ sym (get_or-set_ne h d (d - p) c 0 (omega arith))
        ∙ sym (r.before (d - p) (omega arith))
        ∙ get_or_at h' (d - p) (j - p) 0 (omega arith)
  ];
  far = λ j a b q. elim (dec_lt d j) [
    | yes s ↦
        r.far j (omega arith) b q
        ∙ get_or_at (set h d c) _ (length h + j - p) 0 (omega (arith, length-set h d c))
        ∙ get_or-set_ne h d (length h + j - p) c 0 (omega arith)
    | no s ↦
        let e₁ : j ≡ d = omega arith in
        get_or_at h' j d 0 e₁
        ∙ r.before d (omega arith)
        ∙ get_or-set_self h d c 0 (omega arith)
        ∙ far (omega arith)
        ∙ get_or_at h (length h + d - p) (length h + j - p) 0 (omega arith)
  ];
}

IsCopy-nothing : (h : List ℕ) (d p : ℕ) → IsCopy h d d p h
IsCopy-nothing h d p = record {
  size = refl;
  before = λ j a. refl;
  after = λ j a. refl;
  near = λ j a b q. absurd (omega arith);
  far = λ j a b q. absurd (omega arith);
}

byte_back_near :
    (dd : DictDecoder) (dist : ℕ)
    → dist ≤ dd.wr_pos
    → byte_back dd dist ≡ get_or dd.hist (dd.wr_pos - dist) 0
unfolding byte_back
byte_back_near dd dist le = rw (le→ltb _ _ le)

byte_back_far :
    (dd : DictDecoder) (dist : ℕ)
    → dd.wr_pos < dist
    → byte_back dd dist ≡ get_or dd.hist (length dd.hist + dd.wr_pos - dist) 0
unfolding byte_back
byte_back_far dd dist lt = rw (lt→ltb _ _ lt)

-- The copy byte by byte is one.
pub copy_bytes-IsCopy :
    (n dist e : ℕ) (dd : DictDecoder)
    → 0 < dist
    → dist ≤ length dd.hist
    → dd.wr_pos + n ≡ e
    → e ≤ length dd.hist
    → IsCopy dd.hist dd.wr_pos e dist (copy_bytes n dist dd).hist
unfolding copy_bytes write_byte
copy_bytes-IsCopy zero dist e dd pos small sum fits =
    let e₁ : e ≡ dd.wr_pos = omega arith in rw e₁ (IsCopy-nothing dd.hist dd.wr_pos dist)
copy_bytes-IsCopy (suc n) dist e dd pos small sum fits =
    IsCopy-set dd.hist _ dd.wr_pos e dist (byte_back dd dist) pos small (omega arith) fits
      (byte_back_near dd dist) (byte_back_far dd dist)
      (copy_bytes-IsCopy n dist e (write_byte dd (byte_back dd dist)) pos (omega (arith, kept))
        (omega arith) (omega (arith, kept)))
  where
    kept : length (set dd.hist dd.wr_pos (byte_back dd dist)) ≡ length dd.hist
    kept = length-set dd.hist dd.wr_pos (byte_back dd dist)

pub copy_bytes-fields :
    (n dist : ℕ) (dd : DictDecoder)
    → ((copy_bytes n dist dd).wr_pos ≡ dd.wr_pos + n)
      × ((copy_bytes n dist dd).rd_pos ≡ dd.rd_pos)
      × ((copy_bytes n dist dd).full ≡ dd.full)
unfolding copy_bytes write_byte
copy_bytes-fields zero dist dd = (omega arith, refl, refl)
copy_bytes-fields (suc n) dist dd =
    let next = copy_bytes-fields n dist (write_byte dd (byte_back dd dist)) in
    (omega (arith, next.0), next.1, next.2)
