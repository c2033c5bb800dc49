-- ===== src/TokenCache/History.antt =====
-- Runs of the cache: calls in order, and what the history of calls says that the cache may hold.
use maas_site_manager.Common.{
  ℕ, ◌+◌, ◌≤◌, String, ◌≡◌, refl, Option, none, some, List, [], ◌∷◌, length, str_eq, if◌then◌else◌,
  arith, ltb, Bool-cases, inl, inr,
}
use maas_site_manager.TokenCache.{
  AccessTokenValidationCache, assign, move_to_end, is_valid, add, remove,
}
use maas_site_manager.TokenCache.Entries.{
  IsUnique, pop-IsUnique, assign-IsUnique, move_to_end-IsUnique, pop_oldest-IsUnique, length-pop-le,
  length-assign-le, length-move_to_end, length-pop_oldest,
}

-- One call, with the clock it reads.
pub data Call : Type 0 where
  check insert : String → ℕ → Call
  discard : String → Call

unfoldable pub step : Call → AccessTokenValidationCache → AccessTokenValidationCache
step (check t now) c = (is_valid t now c).1
step (insert t now) c = add t now c
step (discard t) c = remove t c

-- The latest call stands first.
unfoldable pub run : AccessTokenValidationCache → List Call → AccessTokenValidationCache
run c [] = c
run c (call ∷ calls) = step call (run c calls)

-- When the token was last added, unless it was removed since.
unfoldable pub last_added : String → List Call → Option ℕ
last_added t [] = none
last_added t (check u now ∷ calls) = last_added t calls
last_added t (insert u now ∷ calls) = if str_eq u t then some now else last_added t calls
last_added t (discard u ∷ calls) = if str_eq u t then none else last_added t calls

abbrev pub empty : ℕ → ℕ → AccessTokenValidationCache
empty size ttl = record { max_size = size; ttl_seconds = ttl; entries = [] }

-- Keys are unique and the size limit holds.
pub record IsWellFormed (c : AccessTokenValidationCache) : Type 0 where
  pub unique : IsUnique c.entries
  bounded : length c.entries ≤ c.max_size

check-IsWellFormed :
    (t : String) (now : ℕ) (c : AccessTokenValidationCache)
    → IsWellFormed c
    → IsWellFormed (is_valid t now c).1
unfolding is_valid
check-IsWellFormed t now c h = ground (
  arith,
  pop-IsUnique t c.entries h.unique,
  move_to_end-IsUnique t c.entries h.unique,
  length-pop-le t c.entries,
  length-move_to_end t c.entries,
)

pub add-IsWellFormed :
    (t : String) (now : ℕ) (c : AccessTokenValidationCache)
    → IsWellFormed c
    → IsWellFormed (add t now c)
unfolding add
add-IsWellFormed t now c h =
    let e = assign t (now + c.ttl_seconds) c.entries in
    let u = move_to_end-IsUnique t e (assign-IsUnique t _ c.entries h.unique) in
    let grown = length-assign-le t (now + c.ttl_seconds) c.entries in
    elim (Bool-cases (ltb c.max_size (length (move_to_end t e)))) [
      | inl full ↦ rw full (record {
        unique = pop_oldest-IsUnique (move_to_end t e) u;
        bounded =
            length-pop_oldest c.max_size (move_to_end t e)
              (omega (arith, length-move_to_end t e, h.bounded));
      })
      | inr room ↦ rw room (record { unique = u; bounded = ground arith })
    ]

remove-IsWellFormed :
    (t : String) (c : AccessTokenValidationCache) → IsWellFormed c → IsWellFormed (remove t c)
unfolding remove
remove-IsWellFormed t c h = record {
  unique = pop-IsUnique t c.entries h.unique;
  bounded = omega (arith, length-pop-le t c.entries, h.bounded);
}

step-IsWellFormed :
    (call : Call) (c : AccessTokenValidationCache) → IsWellFormed c → IsWellFormed (step call c)
unfolding step
step-IsWellFormed (check t now) c h = check-IsWellFormed t now c h
step-IsWellFormed (insert t now) c h = add-IsWellFormed t now c h
step-IsWellFormed (discard t) c h = remove-IsWellFormed t c h

pub run-IsWellFormed :
    (calls : List Call) (c : AccessTokenValidationCache)
    → IsWellFormed c
    → IsWellFormed (run c calls)
unfolding run
run-IsWellFormed [] c h = h
run-IsWellFormed (call ∷ calls) c h =
    step-IsWellFormed call (run c calls) (run-IsWellFormed calls c h)

pub limits-step :
    (call : Call) (c : AccessTokenValidationCache)
    → ((step call c).max_size ≡ c.max_size) × ((step call c).ttl_seconds ≡ c.ttl_seconds)
unfolding step is_valid add remove
limits-step (check t now) c = ground arith
limits-step (insert t now) c = ground arith
limits-step (discard t) c = ground arith

pub limits-run :
    (calls : List Call) (c : AccessTokenValidationCache)
    → ((run c calls).max_size ≡ c.max_size) × ((run c calls).ttl_seconds ≡ c.ttl_seconds)
unfolding run
limits-run [] c = (refl, refl)
limits-run (call ∷ calls) c = ground (arith, limits-step call (run c calls), limits-run calls c)

pub IsWellFormed-empty : (size ttl : ℕ) → IsWellFormed (empty size ttl)
IsWellFormed-empty size ttl = record { unique = tt; bounded = omega arith }

-- After any sequence of calls on a new cache of a given size, no token stands in it twice, and it
-- holds no more tokens than that size.
pub run_bounded :
    (calls : List Call) (size ttl : ℕ)
    → let c = run (empty size ttl) calls in IsUnique c.entries × (length c.entries ≤ size)
run_bounded calls size ttl =
    let h = run-IsWellFormed calls (empty size ttl) (IsWellFormed-empty size ttl) in
    (h.unique, omega (arith, h.bounded, (limits-run calls (empty size ttl)).0))
