-- ===== src/Ranger/Tests.antt =====
-- A server with a redirection, and one that redirects to itself.
use targz.Prelude.{
  ℕ, ◌+◌, ◌≡◌, refl, List, [], ◌∷◌, true, none, some, take, drop, arith, ◌==◌, if◌then◌else◌,
}
use targz.Flate.Source.{eof}
use targz.Ranger.{Transport, sent, refused, goes_on, read_at}
use targz.Ranger.Redirects.{
  Redirects, Answers, refusal, no_redirection, Leads, here, further, read_at-refused, read_at-file,
  read_at-loops,
}

abbrev content : List ℕ
content = 10 ∷ 11 ∷ 12 ∷ 13 ∷ 14 ∷ []

-- `1` redirects to `2`, which has the file, and `3` to itself; a location is relative, it is added to
-- the URI of the request.
abbrev server : Transport ℕ
server = record {
  request = λ u. true;
  round_trip = λ u off len. some (
      if u == 2
      then record {
        status = 206;
        location = none;
        body = record { rest = take len (drop off content); fail = eof };
      }
      else record {
        status = 302;
        location = some (if u == 1 then 1 else 0);
        body = record { rest = []; fail = eof };
      });
  resolve = λ u redir. some (u + redir);
}

leads :
    Leads server 3 1
      (Answers server 3 1 (record { rest = take 3 (drop 1 content); fail = eof }))
      1
      1
      2
leads =
    further
      (record {
        can_ask = refl;
        res = _;
        answer = refl;
        redirects = refl;
        location = _;
        located = refl;
        leads = refl;
      })
      (here
        (record { can_ask = refl; res = _; answer = refl; partial_content = refl; sends = refl }))

read_at-file_example :
    read_at server 2 3 1 (record { uri = 1 }) ≡ sent (11 ∷ 12 ∷ 13 ∷ []) none (record { uri = 2 })
read_at-file_example = read_at-file server 3 1 2 1 1 2 content leads (omega arith) (omega arith)

-- `4` leads to `5`, whose location comes with a status of 404.
abbrev absent : Transport ℕ
absent = record server {
  round_trip = λ u off len. some (record {
    status = if u == 4 then 301 else 404;
    location = some 1;
    body = record { rest = []; fail = eof };
  });
}

read_at-refused_example : read_at absent 2 3 1 (record { uri = 4 }) ≡ refused (record { uri = 5 })
read_at-refused_example =
    read_at-refused absent 3 1 2 1 4 5
      (further
        (record {
          can_ask = refl;
          res = _;
          answer = refl;
          redirects = refl;
          location = _;
          located = refl;
          leads = refl;
        })
        (here (
          refusal refl refl (λ e. omega (arith, e)) (no_redirection refl (λ e. omega (arith, e))))))
      (omega arith)

loops : Redirects server 3 1 3 3
loops = record {
  can_ask = refl;
  res = _;
  answer = refl;
  redirects = refl;
  location = _;
  located = refl;
  leads = refl;
}

read_at-loops_example : read_at server 50 3 1 (record { uri = 3 }) ≡ goes_on
read_at-loops_example = read_at-loops server 3 1 3 loops 50
