-- ===== src/Profiles/Validators.antt =====
-- The field validators of db/models/global_site_config.py, on texts as lists of code points. What they
-- return is dropped by the only caller, so that only the outcome counts: whether a ValueError is raised.
use maas_site_manager.Common.{
  ℕ, Bool, true, false, Option, none, some, List, [], ◌∷◌, ◌&&◌, ◌||◌, not, any, leb, ◌==◌, length,
  if◌then◌else◌,
}
use maas_site_manager.Profiles.Values.{ℤ, Value, int, text, at_least, at_most, eq_ℤ}
use maas_site_manager.Profiles.Values.ℤ.{pos}
use maas_site_manager.Common.Codes.{codes}

abbrev pub Text : Type 0
Text = List ℕ

-- What the `re` and `str` methods know of the characters beyond ASCII.
pub record Unicode : Type 0 where
  pub is_digit : ℕ → Bool
  pub is_space : ℕ → Bool

abbrev between : ℕ → ℕ → ℕ → Bool
between lo hi c = leb lo c && leb c hi

abbrev pub is_letter : ℕ → Bool
is_letter c = between b'a' b'z' c || between b'A' b'Z' c

abbrev pub is_ascii_digit : ℕ → Bool
is_ascii_digit c = between b'0' b'9' c

abbrev pub is_alnum : ℕ → Bool
is_alnum c = is_letter c || is_ascii_digit c

abbrev pub is_hex : ℕ → Bool
is_hex c = is_ascii_digit c || between b'a' b'f' c || between b'A' b'F' c

abbrev pub hyphen : ℕ
hyphen = b'-'

abbrev pub dot : ℕ
dot = b'.'

abbrev pub colon : ℕ
colon = b':'

abbrev pub slash : ℕ
slash = b'/'

abbrev pub newline : ℕ
newline = 10

abbrev pub all : (ℕ → Bool) → Text → Bool
all p [] = true
all p (c ∷ s) = p c && all p s

abbrev with_first : ℕ → List Text → List Text
with_first c [] = (c ∷ []) ∷ []
with_first c (t ∷ ts) = (c ∷ t) ∷ ts

-- The parts between the characters that pass the test: at least one.
abbrev pub split_by : (ℕ → Bool) → Text → List Text
split_by p [] = [] ∷ []
split_by p (c ∷ s) = let parts = split_by p s in if p c then [] ∷ parts else with_first c parts

abbrev pub is_empty : Text → Bool
is_empty [] = true
is_empty (c ∷ s) = false

abbrev pub starts_by : (ℕ → Bool) → Text → Bool
starts_by p [] = false
starts_by p (c ∷ s) = p c

abbrev pub ends_by : (ℕ → Bool) → Text → Bool
ends_by p [] = false
ends_by p (c ∷ []) = p c
ends_by p (c ∷ d ∷ s) = ends_by p (d ∷ s)

-- `$` of `re` passes over one newline at the end.
abbrev pub without_newline : Text → Text
without_newline [] = []
without_newline (c ∷ []) = if c == newline then [] else c ∷ []
without_newline (c ∷ d ∷ s) = c ∷ without_newline (d ∷ s)

pub data PortError : Type 0 where
  out_of_range system_reserved maas_reserved : PortError

-- `MAASProxyPortConfig.validate_port` on a port that is not None
abbrev pub validate_port : ℤ → Option PortError
validate_port value =
    if not (at_most 65535 value) || at_most 0 value
    then some out_of_range
    else if at_least 0 value && at_most 1023 value
    then some system_reserved
    else if at_least 5239 value && at_most 5284 value
    then some maas_reserved
    else none

-- `MAASSyslogPortConfig.validate_port`: the internal port is allowed.
abbrev pub validate_syslog_port : ℤ → Option PortError
validate_syslog_port value = if eq_ℤ value (pos 5247) then none else validate_port value

abbrev raises_nothing : Option PortError → Bool
raises_nothing none = true
raises_nothing (some e) = false

abbrev pub on_port : (ℤ → Option PortError) → Value → Bool
on_port f (int n) = raises_nothing (f n)
on_port f v = true

abbrev pub on_text : (Text → Bool) → Value → Bool
on_text f (text s) = f (codes s)
on_text f v = true

abbrev valid_label : Text → Bool
valid_label label =
    not (is_empty label)
    && leb (length label) 63
    && not (starts_by (◌==◌ hyphen) label)
    && not (ends_by (◌==◌ hyphen) label)
    && all (λ c. is_alnum c || c == hyphen) (without_newline label)

abbrev pub all_texts : (Text → Bool) → List Text → Bool
all_texts p [] = true
all_texts p (t ∷ ts) = p t && all_texts p ts

abbrev pub validate_domain_name : Text → Bool
validate_domain_name name =
    leb (length name) 255 && all_texts valid_label (split_by (◌==◌ dot) name)

abbrev first_part : List Text → Text
first_part [] = []
first_part (t ∷ ts) = t

abbrev pub validate_hostname : Text → Bool
validate_hostname hostname =
    leb (length hostname) 255
    && not (any (◌==◌ b'_') (first_part (split_by (◌==◌ dot) hostname)))
    && validate_domain_name hostname

-- `LABEL`: from one to 64 characters, no hyphen first or last.
abbrev matches_label : Text → Bool
matches_label t =
    starts_by is_alnum t
    && ends_by is_alnum t
    && all (λ c. is_alnum c || c == hyphen) t
    && leb (length t) 64

-- A last part that is empty stands for the dot that may end a `NAMESPEC`.
abbrev matches_labels : List Text → Bool
matches_labels [] = true
matches_labels ([] ∷ []) = true
matches_labels (t ∷ ts) = matches_label t && matches_labels ts

-- `re.search(f"^{NAMESPEC}$", value)`
abbrev pub matches_namespec : Text → Bool
matches_namespec value =
    let parts = split_by (◌==◌ dot) (without_newline value) in
    not (is_empty (first_part parts)) && matches_labels parts

abbrev pub validate_internal_domain : Text → Bool
validate_internal_domain value = matches_namespec value && leb (length value) 255
