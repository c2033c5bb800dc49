-- ===== src/Sites/Tokens.antt =====
-- `TokenService` of backend/msm/apiserver/service/token.py.
use maas_site_manager.Common.{
  ℕ, suc, ◌+◌, String, Bool, true, ◌&&◌, Option, none, some, List, [], ◌∷◌, ◌++◌, map, ltb, ◌==◌,
  select, any, length,
}
use maas_site_manager.Common.Result.{Tx, ◌>>=◌, ◌>>◌, pure, gets, modify, one_or_none}
use maas_site_manager.Common.Rows.{delete}
use maas_site_manager.Sites.Tables.{
  TokenAudience, TokenPurpose, audience_eq, purpose_eq, TokenRow, Db, is_null,
}

-- What `create` is given for all of its tokens, beside the key that `sign` holds.
pub record Grant : Type 0 where
  pub duration : ℕ
  pub audience : TokenAudience
  pub purpose : TokenPurpose
  pub site_id : Option ℕ

-- `JWT.create(...).encoded`, by subject, issue time and expiration: signing is the JOSE library's.
abbrev pub Sign : Type 0
Sign = Grant → ℕ → ℕ → ℕ → String

abbrev pub member : ℕ → List ℕ → Bool
member k = any (λ x. x == k)

-- The rows that `create` inserts, one for each fresh UUID.
pub token_rows : Sign → Grant → ℕ → ℕ → List ℕ → List TokenRow
token_rows sign g now next [] = []
token_rows sign g now next (auth_id ∷ auth_ids) =
    record {
      id = next;
      value = sign g auth_id now (now + g.duration);
      audience = g.audience;
      purpose = g.purpose;
      auth_id = auth_id;
      site_id = g.site_id;
      expired = now + g.duration;
      created = now;
    }
    ∷ token_rows sign g now (suc next) auth_ids

unfoldable pub create : Sign → Grant → ℕ → List ℕ → Tx Db (List TokenRow)
unfolding token_rows
create sign g now auth_ids s =
    let rows = token_rows sign g now s.token_sequence auth_ids in
    (do
      modify (λ d. record d {
        tokens = d.tokens ++ rows;
        token_sequence = d.token_sequence + length auth_ids;
      })
      pure rows)
      s

-- Whether `get` returns the token: of that audience and purpose, on no site, and not expired.
abbrev pub is_active : List TokenAudience → List TokenPurpose → ℕ → TokenRow → Bool
is_active audiences purposes now t =
    any (λ a. audience_eq a t.audience) audiences
    && any (λ p. purpose_eq p t.purpose) purposes
    && is_null t.site_id
    && ltb now t.expired

unfoldable pub get_by_auth_id : ℕ → TokenAudience → TokenPurpose → Tx Db (Option TokenRow)
get_by_auth_id auth_id audience purpose = do
  rows ← gets (λ d.
      select
        (λ t.
          (t.auth_id == auth_id)
          && (audience_eq t.audience audience && purpose_eq t.purpose purpose))
        d.tokens)
  one_or_none rows

unfoldable pub delete_token : ℕ → Tx Db Unit
delete_token id = modify (λ d. record d { tokens = delete (λ t. t.id == id) d.tokens })

-- The ids returned are those of the rows deleted.
unfoldable pub delete_many : List ℕ → Tx Db (List ℕ)
delete_many ids = do
  found ← gets (λ d. map (λ t. t.id) (select (λ t. member t.id ids) d.tokens))
  modify (λ d. record d { tokens = delete (λ t. member t.id ids) d.tokens })
  pure found

abbrev matches_audience : Option TokenAudience → TokenRow → Bool
matches_audience none t = true
matches_audience (some a) t = audience_eq t.audience a

abbrev matches_purpose : Option TokenPurpose → TokenRow → Bool
matches_purpose none t = true
matches_purpose (some p) t = purpose_eq t.purpose p

abbrev pub is_stale : Option TokenAudience → Option TokenPurpose → ℕ → TokenRow → Bool
is_stale audience purpose now t =
    ltb t.expired now && (matches_audience audience t && matches_purpose purpose t)

unfoldable pub delete_expired : Option TokenAudience → Option TokenPurpose → ℕ → Tx Db ℕ
delete_expired audience purpose now = do
  found ← gets (λ d. select (is_stale audience purpose now) d.tokens)
  modify (λ d. record d { tokens = delete (is_stale audience purpose now) d.tokens })
  pure (length found)
