-- ===== src/Images/Keys.antt =====
-- The keys `(os, release, arch)` under which images are told apart, with their order.
use maas_site_manager.Common.{
  String, Bool, true, ◌≡◌, refl, ◌&&◌, str_eq, eq_iff, eq_refl, if◌then◌else◌, arith,
}
use maas_site_manager.Common.Dict.{Eq}
use maas_site_manager.Common.Sorts.{str_le}

abbrev pub Key : Type 0
Key = String × (String × String)

abbrev pub key_eq : Key → Key → Bool
key_eq j k = str_eq j.0 k.0 && (str_eq j.1.0 k.1.0 && str_eq j.1.1 k.1.1)

-- The order of tuples.
abbrev pub key_le : Key → Key → Bool
key_le j k =
    if str_eq j.0 k.0
    then (if str_eq j.1.0 k.1.0 then str_le j.1.1 k.1.1 else str_le j.1.0 k.1.0)
    else str_le j.0 k.0

pub key_same : (j k : Key) → key_eq j k ≡ true → j ≡ k
key_same (a, (b, c)) (x, (y, z)) h =
    let p : a ≡ x = (eq_iff a x).0 (ground arith) in
    let q : b ≡ y = (eq_iff b y).0 (ground arith) in
    let r : c ≡ z = (eq_iff c z).0 (ground arith) in rw (p, q, r) refl

pub key_self : (k : Key) → key_eq k k ≡ true
key_self (a, (b, c)) = ground (arith, eq_refl a, eq_refl b, eq_refl c)

instance abbrev pub Eq-Key : Eq Key
Eq-Key = record { eq = key_eq; same = key_same; self = key_self }

-- Equal keys stand for each other in the order.
pub key_le_same : (j k : Key) → key_eq j k ≡ true → key_le j k ≡ true
key_le_same j k h = ground arith
