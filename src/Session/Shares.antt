-- ===== src/Session/Shares.antt =====
-- src/main.rs, `Connection::reserve_share` and `finish_share`: the limit on outstanding shares.
use xus_miner.Common.{
  ℕ, Bool, ◌+◌, ◌-◌, ◌≤◌, ◌≡◌, refl, true, false, List, [], ◌∷◌, ltb, if◌then◌else◌, Bool-cases,
  inl, inr, sym, arith,
}
use mathlib.Core.Path.{subst, ap}
use xus_miner.Session.{Connection, reserve_share, finish_share}

-- What the workers and the reader do with one connection, in any order.
pub data Use : Type 0 where
  reserves finishes : Use

abbrev pub use_connection : Connection → Use → Connection
use_connection c reserves = (reserve_share c).0
use_connection c finishes = finish_share c

abbrev pub use_all : Connection → List Use → Connection
use_all c [] = c
use_all c (u ∷ us) = use_all (use_connection c u) us

-- What the calls of `reserve_share` in a run return.
abbrev pub answers : Connection → List Use → List Bool
answers c [] = []
answers c (reserves ∷ us) = (reserve_share c).1 ∷ answers (use_connection c reserves) us
answers c (finishes ∷ us) = answers (use_connection c finishes) us

-- The outstanding shares by what the callers were told: one more for each `true`, and one less for
-- each reply, as long as there are any.
abbrev pub balance : ℕ → List Use → List Bool → ℕ
balance n [] told = n
balance n (reserves ∷ us) [] = balance n us []
balance n (reserves ∷ us) (granted ∷ told) = balance (if granted then n + 1 else n) us told
balance n (finishes ∷ us) told = balance (n - 1) us told

-- The answers that the limit allows.
abbrev pub allowed : ℕ → ℕ → List Use → List Bool
allowed limit n [] = []
allowed limit n (reserves ∷ us) = ltb n limit ∷ allowed limit (if ltb n limit then n + 1 else n) us
allowed limit n (finishes ∷ us) = allowed limit (n - 1) us

reserve_share-room :
    (c : Connection)
    → ltb c.pending c.max_pending ≡ true
    → reserve_share c ≡ (record c { pending = c.pending + 1 }, true)
unfolding reserve_share
reserve_share-room c room = ground arith

reserve_share-full :
    (c : Connection) → ltb c.pending c.max_pending ≡ false → reserve_share c ≡ (c, false)
unfolding reserve_share
reserve_share-full c full = ground arith

-- The connection after a run, and the answers: within the limit, with the balance of the answers
-- outstanding, and the answers are those that the limit allows.
abbrev pub Balanced : ℕ → ℕ → List Use → List Bool → Connection → Type 0
Balanced limit n us told d =
    (d.pending ≤ limit)
    × (d.max_pending ≡ limit)
    × (d.pending ≡ balance n us told)
    × (told ≡ allowed limit n us)

-- A run that starts with a reservation, by what the call did.
abbrev After : ℕ → ℕ → List Use → Connection × Bool → Type 0
After limit n us r = Balanced limit n (reserves ∷ us) (r.1 ∷ answers r.0 us) (use_all r.0 us)

-- In whatever order shares are reserved and replies come in, replies to no share included, a
-- reservation is granted exactly while fewer shares than the limit are outstanding; the outstanding
-- shares, which are those whose callers were told that they are granted without those that a reply
-- released, never exceed the limit, which stays.
pub use_all-Balanced :
    (c : Connection) (us : List Use)
    → c.pending ≤ c.max_pending
    → Balanced c.max_pending c.pending us (answers c us) (use_all c us)
unfolding finish_share
use_all-Balanced c [] within = (within, refl, refl, refl)
use_all-Balanced c (reserves ∷ us) within = elim (Bool-cases (ltb c.pending c.max_pending)) [
  | inl room ↦
      let rest = use_all-Balanced (record c { pending = c.pending + 1 }) us (ground arith) in
      subst (After c.max_pending c.pending us) (sym (reserve_share-room c room))
        (rw room (rest.0, rest.1, rest.2, ap (λ told. true ∷ told) rest.3))
  | inr full ↦
      let rest = use_all-Balanced c us within in
      subst (After c.max_pending c.pending us) (sym (reserve_share-full c full))
        (rw full (rest.0, rest.1, rest.2, ap (λ told. false ∷ told) rest.3))
]
use_all-Balanced c (finishes ∷ us) within =
    use_all-Balanced (record c { pending = c.pending - 1 }) us (omega arith)
