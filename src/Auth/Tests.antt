-- ===== src/Auth/Tests.antt =====
-- Tokens of a worker and of an administrator. Under `jose` every text is a token for workers.
use maas_site_manager.Common.{ℕ, ◌≡◌, refl, String, true, Option, none, some, [], ◌∷◌, any}
use maas_site_manager.Common.Result.{ok}
use maas_site_manager.Sites.Tables.{TokenAudience, TokenRow, worker, access, api, audience_eq}
use maas_site_manager.Users.Tables.{UserRow}
use maas_site_manager.Users.Handlers
use maas_site_manager.Users.Service
use maas_site_manager.Sites.Tokens
use maas_site_manager.Auth
use maas_site_manager.Auth.{
  Payload, Services, user, worker_of, auth_id_from_token_multi_aud,
  verify_authenticated_admin_or_worker,
}
use maas_site_manager.Auth.Soundness.{IsGranted, admin_or_worker_sound}
use maas_site_manager.Auth.Audiences.{IsAccepted, multi_aud_sound}

abbrev payload : Payload
payload = record {
  sub = some "u";
  iss = some "i";
  aud = some [];
  iat = some 1;
  exp = some 2;
  purpose = some "access";
}

abbrev jose : String → Option TokenAudience → Option Payload
jose encoded none = some payload
jose encoded (some worker) = some payload
jose encoded (some api) = none
jose encoded (some TokenAudience.site) = none

abbrev uuid : String → Option ℕ
uuid s = some 71

answered :
    auth_id_from_token_multi_aud jose uuid (api ∷ worker ∷ []) (some access) "t" ≡ ok (71, worker)
unfolding auth_id_from_token_multi_aud
answered = refl

multi_aud_sound_example :
    (any (λ a. audience_eq a worker) (api ∷ worker ∷ []) ≡ true)
    × IsAccepted jose uuid (some access) "t" worker
multi_aud_sound_example =
    multi_aud_sound jose uuid (some access) "t" (api ∷ worker ∷ []) 71 worker answered

abbrev admin : UserRow
admin = record {
  id = 1;
  email = "a";
  username = "a";
  full_name = "";
  password = "h";
  is_admin = true;
  provider_id = none;
  auth_id = 71;
}

abbrev worker_token : TokenRow
worker_token = record {
  id = 1;
  value = "t";
  audience = worker;
  purpose = access;
  auth_id = 80;
  site_id = none;
  expired = 100;
  created = 0;
}

abbrev services : Services
services = record {
  users = record { users = admin ∷ []; user_sequence = 2 };
  tokens = record {
    sites = [];
    tokens = worker_token ∷ [];
    site_data = [];
    site_sequence = 1;
    token_sequence = 2;
    site_data_sequence = 1;
  };
}

admin_granted :
    verify_authenticated_admin_or_worker (71, api) 50 services ≡ ok (user admin, services)
unfolding verify_authenticated_admin_or_worker Handlers.authenticated_user Service.get_by_auth_id
admin_granted = refl

worker_granted :
    verify_authenticated_admin_or_worker (80, worker) 50 services ≡ ok (worker_of 80, services)
unfolding verify_authenticated_admin_or_worker Auth.authenticated_worker Tokens.get_by_auth_id
worker_granted = refl

admin_or_worker_sound_example : IsGranted services 80 50 (worker_of 80) × (services ≡ services)
admin_or_worker_sound_example =
    admin_or_worker_sound 80 50 worker services services (worker_of 80) worker_granted
