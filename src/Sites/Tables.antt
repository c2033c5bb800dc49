-- ===== src/Sites/Tables.antt =====
-- The rows of backend/msm/apiserver/db/tables.py that enrolment reads and writes, as records. A
-- timestamp is a number of time units, a UUID a number; the sequences behind the primary keys are
-- part of the state. An angle of a coordinate is opaque: the program only stores it.
use maas_site_manager.Common.{ℕ, String, Bool, Option, none, some, List, ltb, ◌==◌}

-- common/jwt.py
pub data TokenAudience : Type 0 where
  api site worker : TokenAudience

pub data TokenPurpose : Type 0 where
  enrolment access : TokenPurpose

abbrev pub audience_eq : TokenAudience → TokenAudience → Bool
audience_eq api api = Bool.true
audience_eq site site = Bool.true
audience_eq worker worker = Bool.true
audience_eq _ _ = Bool.false

abbrev pub purpose_eq : TokenPurpose → TokenPurpose → Bool
purpose_eq enrolment enrolment = Bool.true
purpose_eq access access = Bool.true
purpose_eq _ _ = Bool.false

pub record Coordinates : Type 0 where
  pub latitude : String
  pub longitude : String

pub record SiteRow : Type 0 where
  pub id : ℕ
  pub name : String
  pub url : String
  pub cluster_uuid : String
  pub accepted : Bool
  pub created : ℕ
  pub deleted : Option ℕ
  pub city : String
  pub country : String
  pub coordinates : Option Coordinates
  pub note : String
  pub state : String
  pub address : String
  pub postal_code : String
  pub timezone : String
  pub version : Option String
  pub known_config_options : List String
  pub trigger_image_sync : Bool
  pub site_profile_id : Option ℕ

pub record TokenRow : Type 0 where
  pub id : ℕ
  pub value : String
  pub audience : TokenAudience
  pub purpose : TokenPurpose
  pub auth_id : ℕ
  pub site_id : Option ℕ
  pub expired : ℕ
  pub created : ℕ

pub record SiteDataRow : Type 0 where
  pub id : ℕ
  pub site_id : ℕ
  pub machines_allocated : ℕ
  pub machines_deployed : ℕ
  pub machines_ready : ℕ
  pub machines_error : ℕ
  pub machines_other : ℕ
  pub last_seen : Option ℕ

pub record Db : Type 0 where
  pub sites : List SiteRow
  pub tokens : List TokenRow
  pub site_data : List SiteDataRow
  pub site_sequence : ℕ
  pub token_sequence : ℕ
  pub site_data_sequence : ℕ

-- `column == value` on a nullable column: never true of NULL
abbrev pub is_value : Option ℕ → ℕ → Bool
is_value none v = Bool.false
is_value (some w) v = w == v

-- `column == None`
abbrev pub is_null {ℓ} : {A : Type ℓ} → Option A → Bool
is_null none = Bool.true
is_null (some w) = Bool.false

-- `Token.is_expired` of db/models/token.py
abbrev pub is_expired : TokenRow → ℕ → Bool
is_expired t now = ltb t.expired now
