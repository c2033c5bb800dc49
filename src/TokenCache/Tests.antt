-- ===== src/TokenCache/Tests.antt =====
-- Runs of the cache of validated tokens at small inputs.
use maas_site_manager.Common.{
  ℕ, ◌+◌, ◌≤◌, ◌≡◌, refl, true, false, some, List, [], ◌∷◌, length, arith, eq_iff,
}
use maas_site_manager.TokenCache.{is_valid, add, lookup, assign, pop, move_to_end, pop_oldest}
use maas_site_manager.TokenCache.Entries.{IsUnique}
use maas_site_manager.TokenCache.History.{
  Call, check, insert, discard, step, run, last_added, empty, IsWellFormed-empty, run_bounded,
}
use maas_site_manager.TokenCache.Soundness.{valid_was_added}
use maas_site_manager.TokenCache.Eviction.{stays_valid}

-- Two tokens fit. "a" is used again before "c" comes, so that "b" is given up.
abbrev calls : List Call
calls = insert "c" 3 ∷ check "a" 2 ∷ insert "b" 1 ∷ insert "a" 0 ∷ []

least_recent_goes : (is_valid "b" 4 (run (empty 2 180) calls)).0 ≡ false
unfolding run step is_valid add lookup assign pop move_to_end pop_oldest
least_recent_goes = refl

used_stays : (is_valid "a" 4 (run (empty 2 180) calls)).0 ≡ true
unfolding run step is_valid add lookup assign pop move_to_end pop_oldest
used_stays = refl

expires : (is_valid "a" 181 (run (empty 2 180) calls)).0 ≡ false
unfolding run step is_valid add lookup assign pop move_to_end pop_oldest
expires = refl

run_bounded_example : let c = run (empty 2 180) calls in IsUnique c.entries × (length c.entries ≤ 2)
run_bounded_example = run_bounded calls 2 180

valid_was_added_example : (s : ℕ) × (last_added "a" calls ≡ some s) × (180 ≤ s + 180)
unfolding run step is_valid add lookup assign pop move_to_end pop_oldest
valid_was_added_example = valid_was_added "a" 180 calls 2 180 still
  where
    still : (is_valid "a" 180 (run (empty 2 180) calls)).0 ≡ true
    still = refl

stays_valid_example :
    (is_valid "a" 100 (run (add "a" 7 (empty 3 180)) (insert "c" 9 ∷ discard "b" ∷ []))).0 ≡ true
stays_valid_example =
    stays_valid "a" 7 100 (insert "c" 9 ∷ discard "b" ∷ []) (empty 3 180) (IsWellFormed-empty 3 180)
      (λ p. cc ((eq_iff "c" "a").1 p), (λ p. cc ((eq_iff "b" "a").1 p), tt)) (omega arith)
      (omega arith)
