-- ===== src/Housekeeping/Fetch/Ids.antt =====
-- Which files a request visits: as many as asked for, going back round the ring, none twice.
use ex2_services.Base.{
  ℕ, zero, suc, ◌+◌, ◌-◌, ◌%◌, ◌<◌, ◌≤◌, ◌≡◌, ◌≢◌, refl, List, [], ◌∷◌, arith, ltb, ltb→lt,
  if◌then◌else◌, Bool-cases, inl, inr, length, get_or, ap, ◌∙◌,
}
use native.Mathlib.Nat.{add-mod_right}
use ex2_services.Housekeeping.Fetch.{previous}

-- The files that `limit` rounds visit behind file `id`.
unfoldable pub visited : ℕ → ℕ → ℕ → List ℕ
visited max zero id = []
visited max (suc limit) id = previous max id ∷ visited max limit (previous max id)

-- File `k` + 1 steps back from file `id` on a ring of `max` files.
abbrev pub back : ℕ → ℕ → ℕ → ℕ
back max id k = if ltb (k + 1) id then id - (k + 1) else id + max - (k + 1)

previous_lem : (max id : ℕ) → 0 < id → id ≤ max → max < 65536 → previous max id ≡ back max id 0
unfolding previous
previous_lem max id pos high few = ground arith

back_step :
    (max id k : ℕ)
    → 0 < id
    → id ≤ max
    → k + 1 < max
    → back max (back max id 0) k ≡ back max id (suc k)
back_step max id k pos high room = ground arith

-- The visited files, one after the other.
visited_at :
    (max limit id k : ℕ)
    → 0 < id
    → id ≤ max
    → max < 65536
    → limit ≤ max
    → k < limit
    → get_or (visited max limit id) k 0 ≡ back max id k
unfolding visited
visited_at max zero id k pos high few fits h = elim h [ ]
visited_at max (suc limit) id zero pos high few fits h = previous_lem max id pos high few
visited_at max (suc limit) id (suc k) pos high few fits h =
    let p : ℕ = previous max id in
    let e : p ≡ back max id 0 = previous_lem max id pos high few in
    let lo : 0 < p = ground arith in
    let hi : p ≤ max = ground arith in
    let step : back max p k ≡ back max id (suc k) =
      rw e (back_step max id k pos high (omega arith)) in
    visited_at max limit p k lo hi few (omega arith) (omega arith) ∙ step

back_ring :
    (max id k : ℕ)
    → 0 < id
    → id ≤ max
    → k < max
    → (0 < back max id k) × (back max id k ≤ max) × ((back max id k + (k + 1)) % max ≡ id % max)
back_ring max id k pos high room = elim (Bool-cases (ltb (k + 1) id)) [
  | inl before ↦
      let far : k + 1 < id = ltb→lt (k + 1) id before in
      let sum : id - (k + 1) + (k + 1) ≡ id = omega arith in
      rw before (omega arith, omega arith, ap (λ x. x % max) sum)
  | inr round ↦
      let sum : id + max - (k + 1) + (k + 1) ≡ id + max = omega arith in
      rw round (ground arith, ground arith, ap (λ x. x % max) sum ∙ add-mod_right id max)
]

pub length-visited : (max limit id : ℕ) → length (visited max limit id) ≡ limit
unfolding visited
length-visited max zero id = refl
length-visited max (suc limit) id = ap suc (length-visited max limit (previous max id))

-- A request for at most as many files as there are, from a file of the ring, visits that many
-- files, all of the ring, the k-th by going k steps back, round at file 1; and none twice.
pub visited_ring :
    (max limit id : ℕ)
    → 0 < id
    → id ≤ max
    → max < 65536
    → limit ≤ max
    → (length (visited max limit id) ≡ limit)
      × ((k : ℕ)
          → k < limit
          → let file = get_or (visited max limit id) k 0 in
            (0 < file) × (file ≤ max) × ((file + (k + 1)) % max ≡ id % max))
      × ((j k : ℕ)
          → j < k
          → k < limit
          → get_or (visited max limit id) j 0 ≢ get_or (visited max limit id) k 0)
visited_ring max limit id pos high few fits = (
  length-visited max limit id,
  λ k h.
      rw (visited_at max limit id k pos high few fits h)
        (back_ring max id k pos high (omega arith)),
  λ j k h h'.
      rw
        (
          visited_at max limit id j pos high few fits (omega arith),
          visited_at max limit id k pos high few fits h',
        )
        (ground arith),
)
