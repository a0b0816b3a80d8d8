-- ===== src/Base/Range.antt =====
-- Bytes, and tests of every number under a bound, by evaluation.
use otdb.Base.{ℕ, zero, suc, ◌<◌, ◌≡◌, Bool, true, ◌&&◌, List, [], ◌∷◌, arith}

-- Each entry of a buffer is a uint8_t.
abbrev pub AreBytes : List ℕ → Type 0
AreBytes [] = Unit
AreBytes (b ∷ bs) = (b < 256) × AreBytes bs

unfoldable pub passes : (ℕ → Bool) → ℕ → Bool
passes test zero = true
passes test (suc bound) = passes test bound && test bound

-- A test that passes under a bound passes at each number there.
pub passes_at :
    (test : ℕ → Bool) (bound v : ℕ) → v < bound → passes test bound ≡ true → test v ≡ true
unfolding passes
passes_at test zero v small ok = absurd (omega arith)
passes_at test (suc bound) v small ok = ground (arith, passes_at test bound v)
