-- ===== src/Device/Platform.antt =====
-- src/common/device.rs: `DevicePlatform` and `DeviceInfo`.
use flare_core.Base.{
  ℕ, ◌≡◌, refl, ◌↔◌, Bool, true, false, ◌||◌, ◌&&◌, [], Option, none, some, arith, Text, Equality,
  ◌==◌, nat_eq, text_eq, text_beq, text_beq_iff, if◌then◌else◌, ◌∙◌, sym, ap, subst,
}
use flare_core.Base.Chars.{codes, eq_ignore_ascii_case}
use flare_core.Base.Dict.{Dict, insert}

pub data DevicePlatform : Type 0 where
  web pc h5 android ios harmony_os : DevicePlatform
  other : Text → DevicePlatform

unfoldable pub from_str : Text → DevicePlatform
from_str s =
    if eq_ignore_ascii_case s (codes "web")
    then web
    else if eq_ignore_ascii_case s (codes "pc") || eq_ignore_ascii_case s (codes "desktop")
    then pc
    else if eq_ignore_ascii_case s (codes "h5") || eq_ignore_ascii_case s (codes "mobile_web")
    then h5
    else if eq_ignore_ascii_case s (codes "android")
    then android
    else if eq_ignore_ascii_case s (codes "ios")
        || eq_ignore_ascii_case s (codes "iphone")
        || eq_ignore_ascii_case s (codes "ipad")
    then ios
    else if eq_ignore_ascii_case s (codes "harmonyos")
        || eq_ignore_ascii_case s (codes "harmony")
        || eq_ignore_ascii_case s (codes "openharmony")
    then harmony_os
    else other s

unfoldable pub as_str : DevicePlatform → Text
as_str web = codes "web"
as_str pc = codes "pc"
as_str h5 = codes "h5"
as_str android = codes "android"
as_str ios = codes "ios"
as_str harmony_os = codes "harmonyos"
as_str (other s) = s

unfoldable pub is_mobile : DevicePlatform → Bool
is_mobile h5 = true
is_mobile android = true
is_mobile ios = true
is_mobile harmony_os = true
is_mobile web = false
is_mobile pc = false
is_mobile (other s) = false

-- Derived `PartialEq`: the constructor's place, and what it holds.
abbrev rank : DevicePlatform → ℕ
rank web = 0
rank pc = 1
rank h5 = 2
rank android = 3
rank ios = 4
rank harmony_os = 5
rank (other s) = 6

abbrev payload : DevicePlatform → Text
payload (other s) = s
payload _ = []

rebuild : ℕ → Text → DevicePlatform
rebuild r s =
    if r == 0
    then web
    else if r == 1
    then pc
    else if r == 2
    then h5
    else if r == 3
    then android
    else if r == 4
    then ios
    else if r == 5
    then harmony_os
    else other s

rebuild-rank-payload : (p : DevicePlatform) → rebuild (rank p) (payload p) ≡ p
unfolding rebuild
rebuild-rank-payload web = refl
rebuild-rank-payload pc = refl
rebuild-rank-payload h5 = refl
rebuild-rank-payload android = refl
rebuild-rank-payload ios = refl
rebuild-rank-payload harmony_os = refl
rebuild-rank-payload (other s) = refl

unfoldable pub platform_beq : DevicePlatform → DevicePlatform → Bool
unfolding text_beq
platform_beq p q = (rank p == rank q) && (payload p == payload q)

fields_beq_iff :
    (p q : DevicePlatform)
    → ((rank p == rank q) && (payload p == payload q) ≡ true)
      ↔ ((rank p ≡ rank q) × (payload p ≡ payload q))
fields_beq_iff p q = ground (arith, text_beq_iff (payload p) (payload q))

fields_eq : (p q : DevicePlatform) → rank p ≡ rank q → payload p ≡ payload q → p ≡ q
fields_eq p q h k = sym (rebuild-rank-payload p) ∙ rw (h, k) (rebuild-rank-payload q)

pub platform_beq_iff : (p q : DevicePlatform) → (platform_beq p q ≡ true) ↔ (p ≡ q)
unfolding platform_beq
platform_beq_iff p q = (
  λ h. let f = (fields_beq_iff p q).0 h in fields_eq p q f.0 f.1,
  λ e. (fields_beq_iff p q).1 (ap rank e, ap payload e),
)

instance abbrev pub platform_eq : Equality DevicePlatform
platform_eq = record { eq = platform_beq; eq_iff = platform_beq_iff }

pub record DeviceInfo : Type 0 where
  pub device_id : Text
  pub platform : DevicePlatform
  pub model : Option Text
  pub app_version : Option Text
  pub system_version : Option Text
  pub metadata : Dict Text Text

unfoldable pub new : Text → DevicePlatform → DeviceInfo
new device_id platform = record {
  device_id = device_id;
  platform = platform;
  model = none;
  app_version = none;
  system_version = none;
  metadata = [];
}

unfoldable pub with_model : DeviceInfo → Text → DeviceInfo
with_model d model = record d { model = some model }

unfoldable pub with_app_version : DeviceInfo → Text → DeviceInfo
with_app_version d version = record d { app_version = some version }

unfoldable pub with_system_version : DeviceInfo → Text → DeviceInfo
with_system_version d version = record d { system_version = some version }

unfoldable pub with_metadata : DeviceInfo → Text → Text → DeviceInfo
with_metadata d key value = record d { metadata = insert key value d.metadata }

from_str-eq-other : (s t : Text) → from_str s ≡ other t → s ≡ t
unfolding from_str
from_str-eq-other s t e = ground arith

from_str-as_str_of_eq : (s : Text) (p : DevicePlatform) → from_str s ≡ p → from_str (as_str p) ≡ p
unfolding from_str as_str eq_ignore_ascii_case
from_str-as_str_of_eq s web e = refl
from_str-as_str_of_eq s pc e = refl
from_str-as_str_of_eq s h5 e = refl
from_str-as_str_of_eq s android e = refl
from_str-as_str_of_eq s ios e = refl
from_str-as_str_of_eq s harmony_os e = refl
from_str-as_str_of_eq s (other t) e = subst (λ u. from_str u ≡ other t) (from_str-eq-other s t e) e

-- Reading a platform's printed form back gives the platform, whatever text it was read from.
pub from_str-as_str-from_str : (s : Text) → from_str (as_str (from_str s)) ≡ from_str s
from_str-as_str-from_str s = from_str-as_str_of_eq s (from_str s) refl
