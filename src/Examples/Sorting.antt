-- ===== src/Examples/Sorting.antt =====
-- Numbers in an ordered slice of ethox/src/managed/ordered.rs.
use ethox.Base.{ℕ, ◌<◌, ◌^◌, refl, [], ◌∷◌, arith}
use Prim.Native.Nat.{compare}
use ethox.Managed.Ordered.{Ordered, new, push, pop, replace_at}
use ethox.Managed.Ordered.Sorted.{IsOrder}
use ethox.Managed.Ordered.Pushed.{IsOrdered}
use ethox.Managed.Ordered.Reached.{Reached, Step, Reached-IsOrdered}

compare-IsOrder : IsOrder compare
compare-IsOrder = record {
  antisymmetric = λ a b. ground arith;
  transitive = λ a b c h k. ground arith;
}

abbrev one : Ordered ℕ
one = record { inner = 7 ∷ 5 ∷ 6 ∷ []; start = 1 }

abbrev two : Ordered ℕ
two = record { inner = 5 ∷ 7 ∷ 6 ∷ []; start = 2 }

abbrev three : Ordered ℕ
three = record { inner = 5 ∷ 6 ∷ 7 ∷ []; start = 3 }

abbrev four : Ordered ℕ
four = record { inner = 5 ∷ 7 ∷ 7 ∷ []; start = 3 }

-- 7, 5 and 6 are pushed, 6 is replaced by 7, and one 7 is removed.
last-Reached : Reached compare (record { inner = 5 ∷ 7 ∷ 7 ∷ []; start = 2 })
unfolding push replace_at pop
last-Reached =
    let small : 1 < 2 ^ 64 = omega arith in
    let start = Reached.created (7 ∷ 5 ∷ 6 ∷ []) in
    let first = Reached.later (new (7 ∷ 5 ∷ 6 ∷ [])) one start (Step.pushed 0 one refl) in
    let second = Reached.later one two first (Step.pushed 0 two refl) in
    let third = Reached.later two three second (Step.pushed 1 three refl) in
    let fourth = Reached.later three four third (Step.replaced 1 7 6 four small refl) in
    Reached.later four _ fourth (Step.popped 1 _ refl)

Reached-IsOrdered_example : IsOrdered compare (record { inner = 5 ∷ 7 ∷ 7 ∷ []; start = 2 })
Reached-IsOrdered_example = Reached-IsOrdered compare _ compare-IsOrder last-Reached
