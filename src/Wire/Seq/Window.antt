-- ===== src/Wire/Seq/Window.antt =====
-- The receive window test of ethox/src/wire/tcp.rs, `SeqNumber::contains_in_window`.
use ethox.Base.{ℕ, ◌^◌, ◌≤◌, ◌<◌, ◌≡◌, returns, arith, ltb, ◌==◌, ◌||◌, ◌&&◌, i32_max, true}
use ethox.Wire.Seq.{SeqNumber, wrapping_add, wrapping_sub, contains_in_window}

-- For a window of at most `i32::MAX` the test returns, and says that `other` lies in the window
-- from `s` exactly when its wrapped distance from `s` is less than the length, or when the window
-- is empty and the distance is 2^31.
pub contains_in_window_exact :
    (s other : SeqNumber) (len : ℕ)
    → s < 2 ^ 32
    → other < 2 ^ 32
    → len ≤ i32_max
    → contains_in_window s other len
      ≡ returns (ltb (wrapping_sub other s) len || (len == 0 && wrapping_sub other s == 2 ^ 31))
unfolding contains_in_window
contains_in_window_exact s other len hs ho hl = ground arith

-- The number 2^31 after any `s` counts as inside the empty window at `s`.
pub contains_in_window-empty :
    (s : SeqNumber) → s < 2 ^ 32 → contains_in_window s (wrapping_add s (2 ^ 31)) 0 ≡ returns true
unfolding contains_in_window wrapping_add
contains_in_window-empty s h = ground arith
