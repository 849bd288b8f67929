-- ===== src/Gzip/Ends.antt =====
-- gsip/internal/gzip/gunzip.go, `Read`: it returns, from one member into the next.
use targz.Prelude.{ℕ, ◌+◌, ◌≤◌, ◌<◌, ◌≡◌, ◌≢◌, List, [], ◌++◌, Option, none, length, arith}
use targz.Flate.Source.{Error}
use targz.Flate.Sound.{bits_left, slack}
use targz.Gzip.State.{Reader, attach}
use targz.Gzip.Reading.{Ended}
use targz.Gzip.Running.{IsRunning, After}

-- The text of the member that the reader is in, once `bytes` have been handed out behind `m`: they
-- belong to the same member; they are what there is so far of a later one, when the members before
-- have ended with no byte handed out by this call; or a member has ended behind them.
pub data Continues (m bytes : List ℕ) : List ℕ → Type 0 where
  same_member : {m' : List ℕ} → m' ≡ m ++ bytes → Continues m bytes m'
  later_member : {m' : List ℕ} → m' ≡ bytes → Continues m bytes m'
  next_begins : {m' : List ℕ} → m' ≡ [] → Continues m bytes m'

module _ (base whole n : ℕ) where
  -- What `Read` leaves of `z`, behind the text `m` of its member, when it returns.
  pub record Served (m : List ℕ) (z : Reader) (bytes : List ℕ) (err : Option Error) (z' : Reader)
      : Type 0 where
    pub fits : length bytes ≤ n
    pub some_here : 0 < n → bytes ≡ [] → err ≢ none
    pub kept_err : z'.err ≡ err
    pub runs_on :
        err ≡ none
        → ((m' : List ℕ) × Continues m bytes m' × IsRunning base whole m' z')
          × (z'.out ≡ z.out + length bytes)
          × (z'.from ≡ z.from)

  -- The turns of the loop that follow a member which has returned nothing.
  abbrev Again : List ℕ → Reader → ℕ → (Reader → Ended) → Type 0
  Again m z budget again =
      (z' : Reader) (run : IsRunning base whole [] z')
      → run.budget < budget
      → z'.out ≡ z.out
      → z'.from ≡ z.from
      → z'.err ≡ none
      → After (Served m z) (again z')

  -- No more than the bits that are left may be used.
  lowered : (m : List ℕ) (z : Reader) → IsRunning base whole m z → IsRunning base whole m z
  unfolding attach
  lowered m z run = record {
    f = run.f;
    total = run.total;
    budget = bits_left (attach z run.f);
    there = run.there;
    good = slack (bits_left (attach z run.f)) (attach z run.f) (omega arith) run.good;
    within = omega (arith, run.good.bounded, run.within);
    counted = run.counted;
    position = run.position;
    digest = run.digest;
    size = run.size;
  }
