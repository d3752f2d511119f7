-- ===== src/Random.antt =====
-- <random>: an engine and the draws of `std::uniform_real_distribution(low, high)` from it. The
-- library is not part of the repository; nothing is assumed of what it draws.
pub record Random (N R : Type 0) : Type 0 where
  pub uniform : N → N → R → N × R
