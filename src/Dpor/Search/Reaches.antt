-- ===== src/Dpor/Search/Reaches.antt =====
-- How far the outer loop of `verify_using` gets.
use deep_debug.Prelude.{ℕ, zero, suc, ◌≡◌, some}
use deep_debug.Coordinator.Session.{ProcessSource}
use deep_debug.Dpor.Search.{
  Configuration, Callbacks, Search, explored, Outcome, search_round, search_rounds,
}

module _ {Live : Type 0} (source : ProcessSource Live) (config : Configuration)
    (k : Callbacks) where
  -- The states in which the outer loop begins a round.
  pub data Reaches (s : Search Live) : Search Live → Type 0 where
    at_once : Reaches s s
    after_round :
        {t u : Search Live}
        → Reaches s t
        → search_round source config k t ≡ explored u
        → Reaches s u

  pub Reaches-rest :
      (fuel : ℕ) (s : Search Live) {t : Search Live} (o : Outcome)
      → Reaches s t
      → search_rounds source config k fuel s ≡ some o
      → (left : ℕ) × (search_rounds source config k left t ≡ some o)
  unfolding search_rounds
  Reaches-rest fuel s o at_once h = (fuel, h)
  Reaches-rest fuel s o (after_round r e) h = one_less (Reaches-rest fuel s o r h) e
    where
      one_less :
          {t u : Search Live}
          → (left : ℕ) × (search_rounds source config k left t ≡ some o)
          → search_round source config k t ≡ explored u
          → (left : ℕ) × (search_rounds source config k left u ≡ some o)
      one_less (zero, h) e = cc h
      one_less (suc left, h) e = (left, rw (search_rounds, e) at h)
