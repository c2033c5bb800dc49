-- ===== src/TokenCache/Soundness.antt =====
-- What a positive answer of `is_valid` rests on: an `add` of that token in the history.
use maas_site_manager.Common.{
  ℕ, ◌+◌, ◌≤◌, String, ◌≡◌, ◌⊎◌, true, Option, none, some, List, [], ◌∷◌, str_eq, if◌then◌else◌,
  arith,
}
use maas_site_manager.TokenCache.{
  AccessTokenValidationCache, lookup, assign, move_to_end, is_valid, add, remove,
}
use maas_site_manager.TokenCache.Entries.{
  IsUnique, lookup-pop, lookup-assign, lookup-move_to_end, assign-IsUnique, move_to_end-IsUnique,
  lookup-pop_oldest,
}
use maas_site_manager.TokenCache.History.{
  Call, check, insert, discard, step, run, last_added, empty, IsWellFormed-empty, run-IsWellFormed,
  limits-run,
}

-- The entry of a token is absent, or expires `ttl` after the token was last added.
abbrev Explains : ℕ → Option ℕ → Option ℕ → Type 0
Explains ttl since none = Unit
Explains ttl none (some e) = ⊥
Explains ttl (some s) (some e) = e ≡ s + ttl

lookup-check :
    (t u : String) (now : ℕ) (c : AccessTokenValidationCache)
    → IsUnique c.entries
    → (lookup t (is_valid u now c).1.entries ≡ none)
      ⊎ (lookup t (is_valid u now c).1.entries ≡ lookup t c.entries)
unfolding is_valid
lookup-check t u now c h =
    ground (arith, lookup-pop u t c.entries h, lookup-move_to_end u t c.entries h)

lookup-remove :
    (t u : String) (c : AccessTokenValidationCache)
    → IsUnique c.entries
    → lookup t (remove u c).entries ≡ (if str_eq u t then none else lookup t c.entries)
unfolding remove
lookup-remove t u c h = lookup-pop u t c.entries h

lookup-add :
    (t u : String) (now : ℕ) (c : AccessTokenValidationCache)
    → IsUnique c.entries
    → (lookup t (add u now c).entries ≡ none)
      ⊎ (lookup t (add u now c).entries
          ≡ (if str_eq u t then some (now + c.ttl_seconds) else lookup t c.entries))
unfolding add
lookup-add t u now c h =
    let e = assign u (now + c.ttl_seconds) c.entries in
    let k = assign-IsUnique u (now + c.ttl_seconds) c.entries h in
    ground (
      arith,
      lookup-pop_oldest t (move_to_end u e) (move_to_end-IsUnique u e k),
      lookup-move_to_end u t e k,
      lookup-assign u t (now + c.ttl_seconds) c.entries,
    )

run-Explains :
    (t : String) (calls : List Call) (size ttl : ℕ)
    → Explains ttl (last_added t calls) (lookup t (run (empty size ttl) calls).entries)
unfolding run last_added step lookup
run-Explains t [] size ttl = tt
run-Explains t (check u now ∷ calls) size ttl =
    let c = run (empty size ttl) calls in
    let w = run-IsWellFormed calls (empty size ttl) (IsWellFormed-empty size ttl) in
    ground (arith, run-Explains t calls size ttl, lookup-check t u now c w.unique)
run-Explains t (insert u now ∷ calls) size ttl =
    let c = run (empty size ttl) calls in
    let w = run-IsWellFormed calls (empty size ttl) (IsWellFormed-empty size ttl) in
    ground (
      arith,
      run-Explains t calls size ttl,
      lookup-add t u now c w.unique,
      (limits-run calls (empty size ttl)).1,
    )
run-Explains t (discard u ∷ calls) size ttl =
    let c = run (empty size ttl) calls in
    let w = run-IsWellFormed calls (empty size ttl) (IsWellFormed-empty size ttl) in
    ground (arith, run-Explains t calls size ttl, lookup-remove t u c w.unique)

found_of_valid :
    (t : String) (now : ℕ) (c : AccessTokenValidationCache)
    → (is_valid t now c).0 ≡ true
    → (e : ℕ) × (lookup t c.entries ≡ some e) × (now ≤ e)
unfolding is_valid
found_of_valid t now c h = ground arith

-- When a new cache, after any calls, says that a token is valid, that token was added in those
-- calls, it was not removed after its last addition, and at most the time to live has passed since.
pub valid_was_added :
    (t : String) (now : ℕ) (calls : List Call) (size ttl : ℕ)
    → (is_valid t now (run (empty size ttl) calls)).0 ≡ true
    → (s : ℕ) × (last_added t calls ≡ some s) × (now ≤ s + ttl)
valid_was_added t now calls size ttl h =
    let (e, found, fresh) = found_of_valid t now (run (empty size ttl) calls) h in
    ground (arith, run-Explains t calls size ttl)
