-- ===== src/Mock/Search/Leads.antt =====
-- A path of keys that the walk of mockgo/mock/requestHandler.go takes from a node and a position on.
use mockgo_server.Mock.Search.{get_path_segment}
use mockgo_server.Mock.Tree.{search_nodes}
use mockgo_server.Mock.Tree.{find_child, Node}
use mockgo_server.Prelude.{
  suc, length, false, true, some, ◌∷◌, [], arith, drop_all, refl, sym, ◌≢◌, ap, false≢true, drop,
  ◌≡◌, ℕ, Bool, List, String,
}
use mockgo_server.Mock.Search.Fitting.{
  Fits, end, stars, node_at, until_empty, until_empty_of_empty, until_empty_of_ne, Takes, Fits-cons,
}

module _ {E : Type 0} (segments : List String) where
  -- From a node and a position, the walk has a path of keys to `m` that fits what is left of the
  -- segments, behind `d` segments that a `**` takes.
  pub record Leads (all_match : Bool) (n : Node E) (p : ℕ) (m : Node E) : Type 0 where
    pub keys : List String
    pub skipped : ℕ
    pub at : node_at keys n ≡ some m
    pub fits : Fits keys (drop skipped (until_empty (drop p segments)))
    pub exact : all_match ≡ false → skipped ≡ 0

  pub Leads-later :
      (sn m : Node E) (p q d : ℕ)
      → drop d (until_empty (drop p segments)) ≡ until_empty (drop q segments)
      → Leads false sn q m
      → Leads true sn p m
  Leads-later sn m p q d same l = record {
    keys = l.keys;
    skipped = d;
    at = l.at;
    fits = rw same (rw (l.exact refl) at l.fits);
    exact = λ h. absurd (false≢true (sym h));
  }

  pub Leads-child :
      (k : String) (sn n m : Node E) (q : ℕ)
      → find_child k (search_nodes sn) ≡ some n
      → get_path_segment segments q ≢ ""
      → Takes k (get_path_segment segments q)
      → Leads false n (suc q) m
      → Leads false sn q m
  unfolding node_at
  Leads-child k sn n m q here ne takes l = record {
    keys = k ∷ l.keys;
    skipped = 0;
    at = rw (here, node_at) l.at;
    fits = rw (until_empty_of_ne segments q ne) (Fits-cons k _ takes (rw (l.exact refl) at l.fits));
    exact = λ h. refl;
  }

  pub Leads-stars :
      (sn n m : Node E) (q : ℕ)
      → find_child "**" (search_nodes sn) ≡ some n
      → get_path_segment segments q ≢ ""
      → Leads true n (suc q) m
      → Leads false sn q m
  unfolding node_at
  Leads-stars sn n m q here ne l = record {
    keys = "**" ∷ l.keys;
    skipped = 0;
    at = rw (here, node_at) l.at;
    fits = rw (until_empty_of_ne segments q ne) (stars "**" _ _ l.skipped refl l.fits);
    exact = λ h. refl;
  }

  -- A walk that stops at its node has the empty path of keys, if nothing is left of the segments, or
  -- if a `**` takes them all.
  pub Leads-here_of_empty :
      (all_match : Bool) (sn m : Node E) (p : ℕ)
      → get_path_segment segments p ≡ ""
      → sn ≡ m
      → Leads all_match sn p m
  unfolding node_at
  Leads-here_of_empty all_match sn m p over same = record {
    keys = [];
    skipped = 0;
    at = ap some same;
    fits = rw (until_empty_of_empty segments p over) end;
    exact = λ h. refl;
  }

  pub Leads-here_of_all : (sn m : Node E) (p : ℕ) → sn ≡ m → Leads true sn p m
  unfolding node_at
  Leads-here_of_all sn m p same = record {
    keys = [];
    skipped = length (until_empty (drop p segments));
    at = ap some same;
    fits =
        rw
          (drop_all (length (until_empty (drop p segments))) (until_empty (drop p segments))
            (omega arith))
          end;
    exact = λ h. absurd (false≢true (sym h));
  }
