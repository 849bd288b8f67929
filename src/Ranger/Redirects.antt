-- ===== src/Ranger/Redirects.antt =====
-- ranger/ranger.go, `ReadAt`: it follows the redirections of the server to the end, if they have one.
use targz.Prelude.{
  ℕ, zero, suc, ◌/◌, ◌<◌, ◌≤◌, ◌≡◌, ◌≢◌, ◌∙◌, refl, ap₂, ◌+◌, le→ltb, take_all, length-take,
  length-drop, true, false, none, some, ◌==◌, arith, take, drop, length, List,
}
use targz.Flate.Source.{Source, eof, read_full}
use targz.Ranger.{
  Response, Transport, Read, sent, refused, goes_on, status_partial_content, redirection,
  after_redirection, after_response, read_at,
}

module _ {U : Type 0} (rt : Transport U) (len off : ℕ) where
  -- A request to `u` is answered by a redirection to `v`: a 3xx status with a location that leads
  -- from `u` to `v`.
  pub record Redirects (u v : U) : Type 0 where
    pub can_ask : rt.request u ≡ true
    pub res : Response U
    pub answer : rt.round_trip u off len ≡ some res
    pub redirects : res.status / 100 ≡ 3
    pub location : U
    pub located : res.location ≡ some location
    pub leads : rt.resolve u location ≡ some v

  -- The range is sent by `u` itself.
  pub record Answers (body : Source) (u : U) : Type 0 where
    pub can_ask : rt.request u ≡ true
    pub res : Response U
    pub answer : rt.round_trip u off len ≡ some res
    pub partial_content : (res.status == status_partial_content) ≡ true
    pub sends : res.body ≡ body

  -- A response that is neither a range nor a redirection that can be followed: it has no location,
  -- or no 3xx status, or a location that leads nowhere from `u`.
  pub data IsRefusal (u : U) (res : Response U) : Type 0 where
    no_location : res.location ≡ none → IsRefusal u res
    no_redirection : {l : U} → res.location ≡ some l → res.status / 100 ≢ 3 → IsRefusal u res
    unresolved :
        {l : U}
        → res.location ≡ some l
        → res.status / 100 ≡ 3
        → rt.resolve u l ≡ none
        → IsRefusal u res

  -- `u` cannot be asked, does not answer, or refuses.
  pub data Refuses (u : U) : Type 0 where
    cannot_ask : rt.request u ≡ false → Refuses u
    no_answer : rt.request u ≡ true → rt.round_trip u off len ≡ none → Refuses u
    refusal :
        {res : Response U}
        → rt.request u ≡ true
        → rt.round_trip u off len ≡ some res
        → res.status ≢ status_partial_content
        → IsRefusal u res
        → Refuses u

  -- Behind so many redirections from `u` stands a URI of a kind.
  pub data Leads (End : U → Type 0) : U → ℕ → U → Type 0 where
    here : {u : U} → End u → Leads End u 0 u
    further : {u w v : U} {k : ℕ} → Redirects u w → Leads End w k v → Leads End u (suc k) v

  -- What a turn makes of a redirection and of the range.
  read_at-Redirects :
      (requests : ℕ) (u v : U)
      → Redirects u v
      → read_at rt (suc requests) len off (record { uri = u })
        ≡ read_at rt requests len off (record { uri = v })
  unfolding read_at after_response after_redirection redirection
  read_at-Redirects requests u v h =
      rw
        (h.can_ask, h.answer, not_partial h.res.status h.redirects, h.located, h.redirects, h.leads)
        refl
    where
      not_partial : (s : ℕ) → s / 100 ≡ 3 → (s == status_partial_content) ≡ false
      not_partial s e = ground (arith, e)

  read_at-Answers :
      (requests : ℕ) (u : U) (body : Source)
      → Answers body u
      → read_at rt (suc requests) len off (record { uri = u })
        ≡ sent (read_full len body).bytes (read_full len body).err (record { uri = u })
  unfolding read_at after_response
  read_at-Answers requests u body h = rw (h.can_ask, h.answer, h.partial_content, h.sends) refl

  redirection-IsRefusal : (u : U) (res : Response U) → IsRefusal u res → redirection rt u res ≡ none
  unfolding redirection
  redirection-IsRefusal u res (no_location l) = rw l refl
  redirection-IsRefusal u res (no_redirection l s) = rw (l, other s) refl
    where
      other : {a b : ℕ} → a ≢ b → (a == b) ≡ false
      other h = ground (arith, h)
  redirection-IsRefusal u res (unresolved l s r) = rw (l, s, r) refl

  read_at-Refuses :
      (requests : ℕ) (u : U)
      → Refuses u
      → read_at rt (suc requests) len off (record { uri = u }) ≡ refused (record { uri = u })
  unfolding read_at after_response after_redirection
  read_at-Refuses requests u (cannot_ask a) = rw a refl
  read_at-Refuses requests u (no_answer a n) = rw (a, n) refl
  read_at-Refuses requests u (refusal {res = res} a r s i) =
      rw (a, r, not_partial s, redirection-IsRefusal u res i) refl
    where
      not_partial : {s : ℕ} → s ≢ status_partial_content → (s == status_partial_content) ≡ false
      not_partial h = ground (arith, h)

  -- With a request for each redirection and one more, they are followed to the end.
  read_at-Leads :
      {End : U → Type 0} (o : U → Read U)
      (ends : (requests : ℕ) (v : U)
        → End v
        → read_at rt (suc requests) len off (record { uri = v }) ≡ o v)
      (requests k : ℕ) (u v : U)
      → Leads End u k v
      → k < requests
      → read_at rt requests len off (record { uri = u }) ≡ o v
  read_at-Leads o ends zero k u v l lt = absurd (omega arith)
  read_at-Leads o ends (suc requests) zero u _ (here e) lt = ends requests u e
  read_at-Leads o ends (suc requests) (suc k) u v (further {w = w} r l) lt =
      read_at-Redirects requests u w r ∙ read_at-Leads o ends requests k w v l (omega arith)

  -- Where, behind `k` redirections, a URI cannot be asked or does not answer, or its answer is
  -- neither partial content nor a redirection that leads anywhere (it has no location, or one with
  -- a status that is not 3xx, or one that cannot be resolved against the URI), `ReadAt` with at
  -- least one request more than `k` fails, and the reader keeps that URI.
  pub read_at-refused :
      (requests k : ℕ) (u v : U)
      → Leads Refuses u k v
      → k < requests
      → read_at rt requests len off (record { uri = u }) ≡ refused (record { uri = v })
  read_at-refused = read_at-Leads (λ v. refused (record { uri = v })) read_at-Refuses

  -- Where a server redirects a URI to itself, `ReadAt` of it does not end, however many requests
  -- it makes.
  pub read_at-loops :
      (u : U)
      → Redirects u u
      → (requests : ℕ) → read_at rt requests len off (record { uri = u }) ≡ goes_on
  unfolding read_at
  read_at-loops u h zero = refl
  read_at-loops u h (suc requests) = read_at-Redirects requests u u h ∙ read_at-loops u h requests

  read_full_slice :
      (content : List ℕ)
      → off + len ≤ length content
      → ((read_full len (record { rest = take len (drop off content); fail = eof })).bytes
          ≡ take len (drop off content))
        × ((read_full len (record { rest = take len (drop off content); fail = eof })).err ≡ none)
  unfolding read_full
  read_full_slice content enough =
      let long = omega_length content enough in
      rw (le→ltb (length (take len (drop off content))) len (omega (arith, long)))
        (take_all len (take len (drop off content)) (omega (arith, long)), refl)
    where
      omega_length :
          (content : List ℕ)
          → off + len ≤ length content
          → length (take len (drop off content)) ≡ len
      omega_length content enough =
          omega (arith, length-take len (drop off content), length-drop off content)

  -- Where a server, behind `k` redirections, sends the bytes of a range of a file, and the range
  -- lies in the file, `ReadAt` with at least one request more than `k` returns those bytes with no
  -- error, and the reader keeps the URI that sent them. A redirection is a response of a 3xx
  -- status with a location, and leads to that location resolved against the URI of the request.
  pub read_at-file :
      (requests k : ℕ) (u v : U) (content : List ℕ)
      → Leads (Answers (record { rest = take len (drop off content); fail = eof })) u k v
      → off + len ≤ length content
      → k < requests
      → read_at rt requests len off (record { uri = u })
        ≡ sent (take len (drop off content)) none (record { uri = v })
  read_at-file requests k u v content l enough lt =
      let (bytes, err) = read_full_slice content enough in
      read_at-Leads
        (λ v.
          sent (read_full len sent_range).bytes (read_full len sent_range).err (record { uri = v }))
        (λ requests v. read_at-Answers requests v sent_range) requests k u v l lt
      ∙ ap₂ (λ b e. sent b e (record { uri = v })) bytes err
    where
      sent_range : Source
      sent_range = record { rest = take len (drop off content); fail = eof }
