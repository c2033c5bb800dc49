-- ===== src/Auth/Soundness.antt =====
-- Who is let in.
use maas_site_manager.Common.{
  ℕ, ◌≡◌, ◌⊎◌, refl, ap, sym, ◌∙◌, subst, Bool, true, false, not, List, [], ◌∷◌, ◌&&◌, ◌==◌,
  if◌then◌else◌, select, Bool-cases, inl, inr,
}
use maas_site_manager.Common.Result.{
  ok, raise, unauthorized, forbidden, multiple_rows_found, pure, raise_if, ◌>>=◌, ◌>>◌,
}
use maas_site_manager.Sites.Tables.{
  TokenAudience, TokenRow, worker, access, audience_eq, purpose_eq, is_expired,
}
use maas_site_manager.Sites.Tokens
use maas_site_manager.Users.Tables.{UserRow}
use maas_site_manager.Users.Service.{get_by_auth_id}
use maas_site_manager.Users.Handlers.{authenticated_user}
use maas_site_manager.Auth.{
  Services, Principal, user, worker_of, authenticated_worker, verify_authenticated_admin_or_worker,
}

list-cases :
    {A : Type 0} (l : List A)
    → ((x : A) × (l ≡ x ∷ [])) ⊎ ((l ≡ []) ⊎ ((x : A) × (y : A) × (m : List A) × (l ≡ x ∷ y ∷ m)))
list-cases [] = inr (inl refl)
list-cases (x ∷ []) = inl (x, refl)
list-cases (x ∷ y ∷ l) = inr (inr (x, y, l, refl))

abbrev pub worker_tokens : ℕ → Services → List TokenRow
worker_tokens auth_id s =
    select
      (λ t.
        (t.auth_id == auth_id) && (audience_eq t.audience worker && purpose_eq t.purpose access))
      s.tokens.tokens

abbrev pub users_of : ℕ → Services → List UserRow
users_of auth_id s = select (λ r. r.auth_id == auth_id) s.users.users

-- What a granted request rests on.
abbrev pub IsGranted : Services → ℕ → ℕ → Principal → Type 0
IsGranted s auth_id now (user u) = (users_of auth_id s ≡ u ∷ []) × (u.is_admin ≡ true)
IsGranted s auth_id now (worker_of k) =
    (k ≡ auth_id) × (t : TokenRow) × (worker_tokens auth_id s ≡ t ∷ []) × (is_expired t now ≡ false)

worker-one :
    (auth_id now : ℕ) (s : Services) (t : TokenRow)
    → worker_tokens auth_id s ≡ t ∷ []
    → authenticated_worker auth_id now s
      ≡ (if is_expired t now then raise unauthorized else ok (worker_of auth_id, s))
unfolding authenticated_worker Tokens.get_by_auth_id
worker-one auth_id now s t found = rw (found, ◌>>=◌) (check (is_expired t now))
  where
    check :
        (b : Bool)
        → (raise_if b unauthorized >> pure (worker_of auth_id)) s
          ≡ (if b then raise unauthorized else ok (worker_of auth_id, s))
    check true = refl
    check false = refl

worker-none :
    (auth_id now : ℕ) (s : Services)
    → worker_tokens auth_id s ≡ []
    → authenticated_worker auth_id now s ≡ raise unauthorized
unfolding authenticated_worker Tokens.get_by_auth_id
worker-none auth_id now s absent = rw (absent, ◌>>=◌) refl

worker-many :
    (auth_id now : ℕ) (s : Services) (x y : TokenRow) (m : List TokenRow)
    → worker_tokens auth_id s ≡ x ∷ y ∷ m
    → authenticated_worker auth_id now s ≡ raise multiple_rows_found
unfolding authenticated_worker Tokens.get_by_auth_id
worker-many auth_id now s x y m many = rw (many, ◌>>=◌) refl

worker_sound :
    (auth_id now : ℕ) (s s' : Services) (p : Principal)
    → authenticated_worker auth_id now s ≡ ok (p, s')
    → IsGranted s auth_id now p × (s' ≡ s)
worker_sound auth_id now s s' p h = elim (list-cases (worker_tokens auth_id s)) [
  | inr (inl absent) ↦ cc (h, worker-none auth_id now s absent)
  | inr (inr (x, y, m, many)) ↦ cc (h, worker-many auth_id now s x y m many)
  | inl (t, found) ↦ elim (Bool-cases (is_expired t now)) [
    | inl expired ↦
        let run : authenticated_worker auth_id now s ≡ raise unauthorized =
          worker-one auth_id now s t found ∙ rw expired refl in
        cc
    | inr fresh ↦
        let run : authenticated_worker auth_id now s ≡ ok (worker_of auth_id, s) =
          worker-one auth_id now s t found ∙ rw fresh refl in
        let same : worker_of auth_id ≡ p = cc in
        (subst (IsGranted s auth_id now) same (refl, t, found, fresh), cc)
  ]
]

module _ (auth_id now : ℕ) (s : Services) (aud : TokenAudience)
    (not_worker : audience_eq aud worker ≡ false) where
  admin-one :
      (u : UserRow)
      → users_of auth_id s ≡ u ∷ []
      → verify_authenticated_admin_or_worker (auth_id, aud) now s
        ≡ (if u.is_admin then ok (user u, s) else raise forbidden)
  unfolding verify_authenticated_admin_or_worker authenticated_user get_by_auth_id
  admin-one u found = rw not_worker (rw (found, ◌>>=◌) (check u.is_admin))
    where
      check :
          (b : Bool)
          → (raise_if (not b) forbidden >> pure (user u)) s
            ≡ (if b then ok (user u, s) else raise forbidden)
      check true = refl
      check false = refl

  admin-none :
      users_of auth_id s ≡ []
      → verify_authenticated_admin_or_worker (auth_id, aud) now s ≡ raise unauthorized
  unfolding verify_authenticated_admin_or_worker authenticated_user get_by_auth_id
  admin-none absent = rw not_worker (rw (absent, ◌>>=◌) refl)

  admin-many :
      (x y : UserRow) (m : List UserRow)
      → users_of auth_id s ≡ x ∷ y ∷ m
      → verify_authenticated_admin_or_worker (auth_id, aud) now s ≡ raise multiple_rows_found
  unfolding verify_authenticated_admin_or_worker authenticated_user get_by_auth_id
  admin-many x y m many = rw not_worker (rw (many, ◌>>=◌) refl)

  admin_sound :
      (s' : Services) (p : Principal)
      → verify_authenticated_admin_or_worker (auth_id, aud) now s ≡ ok (p, s')
      → IsGranted s auth_id now p × (s' ≡ s)
  admin_sound s' p h = elim (list-cases (users_of auth_id s)) [
    | inr (inl absent) ↦ cc (h, admin-none absent)
    | inr (inr (x, y, m, many)) ↦ cc (h, admin-many x y m many)
    | inl (u, found) ↦ elim (Bool-cases u.is_admin) [
      | inl adm ↦
          let run : verify_authenticated_admin_or_worker (auth_id, aud) now s ≡ ok (user u, s) =
            admin-one u found ∙ ap (λ b. if b then ok (user u, s) else raise forbidden) adm in
          let same : user u ≡ p = cc in (subst (IsGranted s auth_id now) same (found, adm), cc)
      | inr plain ↦
          let run : verify_authenticated_admin_or_worker (auth_id, aud) now s ≡ raise forbidden =
            admin-one u found ∙ ap (λ b. if b then ok (user u, s) else raise forbidden) plain in
          cc
    ]
  ]

as_worker_lem :
    (auth_id now : ℕ) (aud : TokenAudience) (s : Services)
    → audience_eq aud worker ≡ true
    → verify_authenticated_admin_or_worker (auth_id, aud) now s ≡ authenticated_worker auth_id now s
unfolding verify_authenticated_admin_or_worker
as_worker_lem auth_id now aud s w = rw w refl

-- A request that needs an administrator or a worker is let in only for the one user of the
-- authentication id, who is an administrator, or for a worker, with a token of that id, audience and
-- purpose that is in the database and not expired; and letting it in writes nothing.
pub admin_or_worker_sound :
    (auth_id now : ℕ) (aud : TokenAudience) (s s' : Services) (p : Principal)
    → verify_authenticated_admin_or_worker (auth_id, aud) now s ≡ ok (p, s')
    → IsGranted s auth_id now p × (s' ≡ s)
admin_or_worker_sound auth_id now aud s s' p h = elim (Bool-cases (audience_eq aud worker)) [
  | inr other ↦ admin_sound auth_id now s aud other s' p h
  | inl is_worker ↦
      worker_sound auth_id now s s' p (sym (as_worker_lem auth_id now aud s is_worker) ∙ h)
]
