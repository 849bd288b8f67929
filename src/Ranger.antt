-- ===== src/Ranger.antt =====
-- ranger/ranger.go: an io.ReaderAt over HTTP range requests. `New` is the record itself.
-- The transport (http.RoundTripper, with net/http around it) and net/url are parameters. The header
-- `Range: bytes=off-(off+len-1)` is given to the transport as `off` and `len`.
pub mod Redirects
mod Tests
use targz.Prelude.{
  ℕ, zero, suc, ◌/◌, List, Bool, true, false, ◌||◌, not, Option, none, some, ◌==◌, if◌then◌else◌,
}
use targz.Flate.Source.{Source, Error, read_full}

-- What the code looks at of a response: no `Location` is `none`.
pub record Response (U : Type 0) : Type 0 where
  pub status : ℕ
  pub location : Option U
  pub body : Source

-- `request` says whether a request can be made for a URI, `round_trip` is its answer to a range, and
-- `resolve` is `url.Parse` of a location and `ResolveReference` against the URI of the request.
pub record Transport (U : Type 0) : Type 0 where
  pub request : U → Bool
  pub round_trip : U → ℕ → ℕ → Option (Response U)
  pub resolve : U → U → Option U

pub record Reader (U : Type 0) : Type 0 where
  pub uri : U

-- How `ReadAt` ends: with the bytes and the error or nil of `io.ReadFull`; with an error of its own;
-- or it has not ended when the fuel is used up.
pub data Read (U : Type 0) : Type 0 where
  sent : List ℕ → Option Error → Reader U → Read U
  refused : Reader U → Read U
  goes_on : Read U

abbrev pub status_partial_content : ℕ
status_partial_content = 206

module _ {U : Type 0} (rt : Transport U) where
  -- Behind a response that is not partial: the URI to go on with, if it is a redirection.
  unfoldable pub redirection : U → Response U → Option U
  redirection uri res = elim res.location [
    | none ↦ none
    | some redir ↦ if not (res.status / 100 == 3) then none else rt.resolve uri redir
  ]

  unfoldable pub after_redirection : Option U → Reader U → (Reader U → Read U) → Read U
  after_redirection none r again = refused r
  after_redirection (some uri) r again = again (record { uri = uri })

  unfoldable pub after_response : Option (Response U) → ℕ → Reader U → (Reader U → Read U) → Read U
  unfolding redirection after_redirection read_full
  after_response none len r again = refused r
  after_response (some res) len r again =
      let got = read_full len res.body in
      if res.status == status_partial_content
      then sent got.bytes got.err r
      else after_redirection (redirection r.uri res) r again

  -- `ReadAt` into `len` bytes, with fuel for so many requests.
  unfoldable pub read_at : ℕ → ℕ → ℕ → Reader U → Read U
  unfolding after_response
  read_at zero len off r = goes_on
  read_at (suc requests) len off r =
      if rt.request r.uri
      then after_response (rt.round_trip r.uri off len) len r (read_at requests len off)
      else refused r
