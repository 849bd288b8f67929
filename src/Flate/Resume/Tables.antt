-- ===== src/Flate/Resume/Tables.antt =====
-- Reading the tables of a block: what they were before makes no difference.
use targz.Prelude.{ℕ, ◌≤◌, List, ◌≡◌, refl, ap, sym, ◌∙◌, length, take, take-drop-take, arith}
use mathlib.Core.Path.{subst}
use targz.Flate.Huffman
use targz.Flate.Huffman.{HuffmanDecoder}
use targz.Flate.State.{Decompressor, done}
use targz.Flate.Symbols.{corrupt_input}
use targz.Flate.Resume.{Extras, extras, with_extras, Both, both_done, both_failed, SameCore}
use targz.Flate.Resume.Lengths.{AgreeTo, AgreeIn}

-- Tables from which `init` makes the same.
abbrev pub SameInit : HuffmanDecoder → HuffmanDecoder → Type 0
SameInit h g = (lengths : List ℕ) → Huffman.init h lengths ≡ Huffman.init g lengths

-- What holds of the fields at the start of a block and is kept in it.
pub record KeptAt (h1 h2 g1 g2 : HuffmanDecoder) (bits bits' codebits codebits' : List ℕ)
    : Type 0 where
  pub init1 : SameInit h1 g1
  pub init2 : SameInit h2 g2
  pub lengths : length bits ≡ length bits'
  pub size : length codebits ≡ 19
  pub size' : length codebits' ≡ 19

abbrev pub Kept : Extras → Extras → Type 0
Kept x y = KeptAt x.h1 x.h2 y.h1 y.h2 x.bits y.bits x.codebits y.codebits

-- With so much left to copy, which the tables do not touch.
pub record Held (l : ℕ) (x y : Extras) : Type 0 where
  pub init1 : SameInit x.h1 y.h1
  pub init2 : SameInit x.h2 y.h2
  pub lengths : length x.bits ≡ length y.bits
  pub size : length x.codebits ≡ 19
  pub size' : length y.codebits ≡ 19
  pub len : x.copy_len ≡ l
  pub len' : y.copy_len ≡ l

pub held : (l : ℕ) (x y : Extras) → Kept x y → x.copy_len ≡ l → y.copy_len ≡ l → Held l x y
held l x y k e e' = record {
  init1 = k.init1;
  init2 = k.init2;
  lengths = k.lengths;
  size = k.size;
  size' = k.size';
  len = e;
  len' = e';
}

pub released : (l : ℕ) (x y : Extras) → Held l x y → Kept x y
released l x y k = record {
  init1 = k.init1;
  init2 = k.init2;
  lengths = k.lengths;
  size = k.size;
  size' = k.size';
}

pub done-Both :
    {A : Type 0} (P : A → Decompressor → Decompressor → Type 0) (a b : A) (f g : Decompressor)
    → a ≡ b
    → P a f g
    → Both P SameCore (done a f) (done b g)
done-Both P a b f g e h = subst (λ c. Both P SameCore (done a f) (done c g)) e (both_done h)

pub corrupt_input-Both :
    {A : Type 0} (P : A → Decompressor → Decompressor → Type 0) (f g : Decompressor)
    → SameCore f g
    → Both P SameCore (corrupt_input f) (corrupt_input g)
corrupt_input-Both P f g e =
    subst (λ z. Both P SameCore (corrupt_input f) (corrupt_input z)) (sym e)
      (both_failed {f = f} {g = with_extras (extras g) f} refl)

module _ (l : ℕ) where
  -- Lengths that have changed.
  pub with_bits :
      (x y : Extras) (bs bs' : List ℕ)
      → Held l x y
      → length bs ≡ length bs'
      → Held l (record x { bits = bs }) (record y { bits = bs' })
  with_bits x y bs bs' k e = record {
    init1 = k.init1;
    init2 = k.init2;
    lengths = e;
    size = k.size;
    size' = k.size';
    len = k.len;
    len' = k.len';
  }

  pub with_h1 :
      (x y : Extras) (h : HuffmanDecoder)
      → Held l x y
      → Held l (record x { h1 = h }) (record y { h1 = h })
  with_h1 x y h k = record {
    init1 = λ lengths. refl;
    init2 = k.init2;
    lengths = k.lengths;
    size = k.size;
    size' = k.size';
    len = k.len;
    len' = k.len';
  }

  pub with_h2 :
      (x y : Extras) (h : HuffmanDecoder)
      → Held l x y
      → Held l (record x { h2 = h }) (record y { h2 = h })
  with_h2 x y h k = record {
    init1 = k.init1;
    init2 = λ lengths. refl;
    lengths = k.lengths;
    size = k.size;
    size' = k.size';
    len = k.len;
    len' = k.len';
  }

  -- The first lengths of the code of lengths have been read.
  abbrev pub Ordered : ℕ → Extras → Extras → Type 0
  Ordered i x y = Held l x y × AgreeIn i x.codebits y.codebits

  -- The table is the same, and so are the first lengths.
  abbrev pub Written : ℕ → Extras → Extras → Type 0
  Written i x y = Held l x y × (x.h1 ≡ y.h1) × AgreeTo i x.bits y.bits

  -- Both tables are the same.
  abbrev pub Tabled : Extras → Extras → Type 0
  Tabled x y = Held l x y × (x.h1 ≡ y.h1) × (x.h2 ≡ y.h2)

  -- Agreement may be forgotten in part.
  pub fewer : (i n : ℕ) (x y : Extras) → n ≤ i → Written i x y → Written n x y
  fewer i n x y le (k, t, (e, h)) = (
    k,
    t,
    (
      e,
      sym (take-drop-take n 0 i x.bits (omega (arith, le)))
          ∙ ap (take n) h
          ∙ take-drop-take n 0 i y.bits (omega (arith, le)),
    ),
  )

  pub fewer_codes : (i n : ℕ) (x y : Extras) → n ≤ i → Ordered i x y → Ordered n x y
  fewer_codes i n x y le (k, (e, e', h)) = (k, (e, e', λ j lt. h j (omega (arith, lt, le))))
