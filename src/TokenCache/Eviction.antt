-- ===== src/TokenCache/Eviction.antt =====
-- Which token a full cache gives up: the one that was added or found valid least recently.
use maas_site_manager.Common.{
  ℕ, suc, ◌+◌, ◌≤◌, ◌<◌, String, ◌≡◌, ◌≢◌, true, Option, none, some, List, [], ◌∷◌, ◌++◌, str_eq,
  eq_iff, if◌then◌else◌, arith, ltb, Bool-cases, Option-cases, inl, inr, length, length-append, All,
}
use maas_site_manager.TokenCache.{
  Entries, AccessTokenValidationCache, lookup, pop, assign, move_to_end, pop_oldest, is_valid, add,
  remove,
}
use maas_site_manager.TokenCache.Entries.{lookup-pop, lookup-assign, length-pop-le}
use maas_site_manager.TokenCache.History.{
  Call, check, insert, discard, step, run, IsWellFormed, add-IsWellFormed, run-IsWellFormed,
  limits-step, limits-run,
}

-- The entry of `t`, and how many entries stand behind it.
behind : String → Entries → Option (ℕ × ℕ)
behind t [] = none
behind t ((j, v) ∷ d) = let rest = behind t d in if str_eq j t then some (v, length d) else rest

abbrev AtMost : ℕ → ℕ → Option (ℕ × ℕ) → Type 0
AtMost e k none = ⊥
AtMost e k (some (v, r)) = (v ≡ e) × (r ≤ k)

-- `t` stands in the cache, with this expiry and at most `k` entries behind it.
abbrev Within : String → ℕ → ℕ → Entries → Type 0
Within t e k d = AtMost e k (behind t d)

lookup-Within : (t : String) (e k : ℕ) (d : Entries) → Within t e k d → lookup t d ≡ some e
unfolding behind lookup
lookup-Within t e k [] h = absurd h
lookup-Within t e k ((j, v) ∷ d) h = ground (arith, lookup-Within t e k d)

pop-Within :
    (t u : String) (e k : ℕ) (d : Entries) → u ≢ t → Within t e k d → Within t e k (pop u d)
unfolding behind pop
pop-Within t u e k [] ne h = h
pop-Within t u e k ((j, v) ∷ d) ne h =
    ground (arith, pop-Within t u e k d ne, eq_iff j t, eq_iff j u, length-pop-le u d)

snoc-Within :
    (t u : String) (e k v : ℕ) (d : Entries)
    → Within t e k d
    → Within t e (suc k) (d ++ (u, v) ∷ [])
unfolding behind
snoc-Within t u e k v [] h = absurd h
snoc-Within t u e k v ((j, w) ∷ d) h =
    ground (arith, snoc-Within t u e k v d, length-append d ((u, v) ∷ []))

pop-assign : (u : String) (v : ℕ) (d : Entries) → pop u (assign u v d) ≡ pop u d
unfolding pop assign
pop-assign u v [] = ground (arith, eq_iff u u)
pop-assign u v ((j, w) ∷ d) = ground (arith, pop-assign u v d)

-- Assigning and moving puts the entry last, wherever it stood.
move_to_end-assign :
    (u : String) (v : ℕ) (d : Entries) → move_to_end u (assign u v d) ≡ pop u d ++ (u, v) ∷ []
unfolding move_to_end
move_to_end-assign u v d = ground (arith, pop-assign u v d, lookup-assign u u v d, eq_iff u u)

move-Within :
    (t u : String) (e k : ℕ) (d : Entries)
    → u ≢ t
    → Within t e k d
    → Within t e (suc k) (move_to_end u d)
unfolding move_to_end
move-Within t u e k d ne h = elim (Option-cases (lookup u d)) [
  | inl missing ↦ ground arith
  | inr (v, found) ↦
      rw (found, move_to_end) (snoc-Within t u e k v (pop u d) (pop-Within t u e k d ne h))
]

drop-Within :
    (t : String) (e k : ℕ) (d : Entries)
    → k + 1 < length d
    → Within t e k d
    → Within t e k (pop_oldest d)
unfolding behind pop_oldest
drop-Within t e k [] lt h = h
drop-Within t e k ((j, v) ∷ d) lt h = ground arith

-- Behind a token just put last there is nothing.
behind-snoc :
    (t : String) (e : ℕ) (d : Entries)
    → lookup t d ≡ none
    → behind t (d ++ (t, e) ∷ []) ≡ some (e, 0)
unfolding behind lookup
behind-snoc t e [] h = ground (arith, eq_iff t t)
behind-snoc t e ((j, v) ∷ d) h = ground (arith, behind-snoc t e d)

-- The token that a call is about.
abbrev pub subject : Call → String
subject (check u now) = u
subject (insert u now) = u
subject (discard u) = u

module _ (t : String) (e k : ℕ) (c : AccessTokenValidationCache) (w : IsWellFormed c) where
  add-Within :
      (u : String) (now : ℕ)
      → u ≢ t
      → k + 1 < c.max_size
      → Within t e k c.entries
      → Within t e (suc k) (add u now c).entries
  unfolding add
  add-Within u now ne lt h =
      let d = pop u c.entries ++ (u, now + c.ttl_seconds) ∷ [] in
      let kept =
        snoc-Within t u e k (now + c.ttl_seconds) (pop u c.entries)
          (pop-Within t u e k c.entries ne h) in
      rw (move_to_end-assign u (now + c.ttl_seconds) c.entries)
        (elim (Bool-cases (ltb c.max_size (length d))) [
          | inl full ↦ rw full (drop-Within t e (suc k) d (ground arith) kept)
          | inr room ↦ rw room kept
        ])

  check-Within :
      (u : String) (now : ℕ)
      → u ≢ t
      → Within t e k c.entries
      → Within t e (suc k) (is_valid u now c).1.entries
  unfolding is_valid
  check-Within u now ne h =
      ground (arith, pop-Within t u e k c.entries ne h, move-Within t u e k c.entries ne h)

  step-Within :
      (call : Call)
      → subject call ≢ t
      → k + 1 < c.max_size
      → Within t e k c.entries
      → Within t e (suc k) (step call c).entries
  unfolding step remove
  step-Within (check u now) ne lt h = check-Within u now ne h
  step-Within (insert u now) ne lt h = add-Within u now ne lt h
  step-Within (discard u) ne lt h = ground (arith, pop-Within t u e k c.entries ne h)

pop_oldest-snoc :
    (t : String) (e : ℕ) (d : Entries)
    → lookup t d ≡ none
    → 0 < length d
    → behind t (pop_oldest (d ++ (t, e) ∷ [])) ≡ some (e, 0)
unfolding behind pop_oldest lookup
pop_oldest-snoc t e [] h lt = absurd (omega arith)
pop_oldest-snoc t e ((j, v) ∷ d) h lt = ground (arith, behind-snoc t e d)

add_self-Within :
    (t : String) (now : ℕ) (c : AccessTokenValidationCache)
    → IsWellFormed c
    → 0 < c.max_size
    → Within t (now + c.ttl_seconds) 0 (add t now c).entries
unfolding add
add_self-Within t now c w pos =
    let e = now + c.ttl_seconds in
    let d = pop t c.entries in
    rw (move_to_end-assign t e c.entries) (
      ground (
        arith,
        behind-snoc t e d,
        pop_oldest-snoc t e d,
        lookup-pop t t c.entries w.unique,
        eq_iff t t,
        length-append d ((t, e) ∷ []),
      ))

run-Within :
    (t : String) (e : ℕ) (calls : List Call) (c : AccessTokenValidationCache)
    → IsWellFormed c
    → All (λ call. subject call ≢ t) calls
    → length calls < c.max_size
    → Within t e 0 c.entries
    → Within t e (length calls) (run c calls).entries
unfolding run
run-Within t e [] c w others lt h = h
run-Within t e (call ∷ calls) c w others lt h =
    step-Within t e (length calls) (run c calls) (run-IsWellFormed calls c w) call others.0
      (omega (arith, (limits-run calls c).0)) (run-Within t e calls c w others.1 (omega arith) h)

-- In a cache with unique keys and no more than `max_size` entries, a token that was just added is
-- still answered valid until its time to live has passed, if since then there were fewer than
-- `max_size` calls, each about another token.
pub stays_valid :
    (t : String) (now later : ℕ) (calls : List Call) (c : AccessTokenValidationCache)
    → IsWellFormed c
    → All (λ call. subject call ≢ t) calls
    → length calls < c.max_size
    → later ≤ now + c.ttl_seconds
    → (is_valid t later (run (add t now c) calls)).0 ≡ true
unfolding is_valid
stays_valid t now later calls c w others lt fresh =
    let w' = add-IsWellFormed t now c w in
    let size = (limits-step (insert t now) c).0 in
    let kept =
      run-Within t (now + c.ttl_seconds) calls (add t now c) w' others
        (unfold step in omega (arith, size)) (add_self-Within t now c w (omega arith)) in
    ground (
      arith,
      lookup-Within t (now + c.ttl_seconds) (length calls) (run (add t now c) calls).entries kept,
    )
