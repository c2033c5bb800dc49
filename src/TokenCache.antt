-- ===== src/TokenCache.antt =====
-- backend/msm/common/token_cache.py: the cache of validated OAuth access tokens. An `OrderedDict`
-- is a list of entries, oldest first. Each method runs under the lock, so it is one step; the clock
-- is an argument, in whole units.
mod Entries
mod History
mod Soundness
mod Eviction
mod Tests
use maas_site_manager.Common.{
  ℕ, ◌+◌, String, Bool, true, false, Option, none, some, List, [], ◌∷◌, ◌++◌, length, ltb, str_eq,
  if◌then◌else◌,
}

abbrev pub Entries : Type 0
Entries = List (String × ℕ)

pub record AccessTokenValidationCache : Type 0 where
  pub max_size : ℕ
  pub ttl_seconds : ℕ
  pub entries : Entries

-- d.get(k)
pub lookup : String → Entries → Option ℕ
lookup k [] = none
lookup k ((j, v) ∷ d) = if str_eq j k then some v else lookup k d

-- d.pop(k, None)
pub pop : String → Entries → Entries
pop k [] = []
pop k ((j, v) ∷ d) = let rest = pop k d in if str_eq j k then d else (j, v) ∷ rest

-- d[k] = v keeps the place of a key that is there, and appends a new one
pub assign : String → ℕ → Entries → Entries
assign k v [] = (k, v) ∷ []
assign k v ((j, w) ∷ d) =
    let rest = assign k v d in if str_eq j k then (j, v) ∷ d else (j, w) ∷ rest

-- d.move_to_end(k)
pub move_to_end : String → Entries → Entries
unfolding pop lookup
move_to_end k d = elim (lookup k d) [ none ↦ d | some v ↦ pop k d ++ (k, v) ∷ [] ]

-- d.popitem(last=False)
pub pop_oldest : Entries → Entries
pop_oldest [] = []
pop_oldest (e ∷ d) = d

unfoldable pub is_valid :
    String → ℕ → AccessTokenValidationCache → Bool × AccessTokenValidationCache
is_valid token now c = elim (lookup token c.entries) [
  | none ↦ (false, c)
  | some expiration ↦
      if ltb expiration now
      then (false, record c { entries = pop token c.entries })
      else (true, record c { entries = move_to_end token c.entries })
]

unfoldable pub add : String → ℕ → AccessTokenValidationCache → AccessTokenValidationCache
add token now c =
    let d = move_to_end token (assign token (now + c.ttl_seconds) c.entries) in
    record c { entries = if ltb c.max_size (length d) then pop_oldest d else d }

unfoldable pub remove : String → AccessTokenValidationCache → AccessTokenValidationCache
remove token c = record c { entries = pop token c.entries }
